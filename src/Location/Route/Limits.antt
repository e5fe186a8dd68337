-- ===== src/Location/Route/Limits.antt =====
-- The limits of a location: the request counters and the size of a body, of
-- pingap-location/src/location.rs.
use pingap.Common.{ℕ, ◌+◌, ◌^◌, ◌<◌, ◌≤◌, ◌≡◌, ◌≢◌, ◌↔◌, ◌⊎◌, some, arith}
use pingap.Common.Words.{inc64, dec32-inc32}
use pingap.Common.Results.{ok, err}
use pingap.External.{RegexLib, HttpLib}
use pingap.Http.Header.{RequestHeader}
use pingap.Location.Selector.{too_many_request}
use pingap.Location.Route.{
  Location, add_processing, sub_processing, client_body_size_limit, get_content_length,
  validate_content_length,
}

module _ (rx : RegexLib) where
  -- For a count and a limit that an `i32` holds as they are: a request is let in, with its two
  -- numbers, when the limit is zero or fewer requests than the limit are under way, and refused
  -- with the limit otherwise; both ways it is counted.
  pub add_processing-admits :
      (l : Location rx)
      → l.processing + 1 < 2 ^ 31
      → l.max_processing < 2 ^ 31
      → ((l.max_processing ≡ 0) ⊎ (l.processing < l.max_processing)
          → (add_processing rx l).1 ≡ ok (inc64 l.accepted, l.processing + 1))
        × (l.max_processing ≢ 0
            → l.max_processing ≤ l.processing
            → (add_processing rx l).1 ≡ err (too_many_request l.max_processing))
        × ((add_processing rx l).0.processing ≡ l.processing + 1)
        × ((add_processing rx l).0.accepted ≡ inc64 l.accepted)
  unfolding add_processing
  add_processing-admits l small bound = (ground arith, ground arith, ground arith, ground arith)

  -- The end of a request takes back what its start counted, also where the counter wraps around,
  -- and leaves all else as the start left it.
  pub sub_processing-add_processing :
      (l : Location rx)
      → l.processing < 2 ^ 32
      → sub_processing rx (add_processing rx l).0 ≡ record l { accepted = inc64 l.accepted }
  unfolding sub_processing add_processing
  sub_processing-add_processing l h = rw (dec32-inc32 l.processing h)

  -- A body within the limit passes, a larger one is refused with the limit, and a limit of zero
  -- refuses none; the declared length is held to the same rule as the received bytes.
  pub validate_content_length-body_size :
      (http : HttpLib) (l : Location rx) (header : RequestHeader) (size : ℕ)
      → get_content_length http header ≡ some size
      → (validate_content_length rx http l header ≡ client_body_size_limit rx l size)
        × ((client_body_size_limit rx l size ≡ ok tt)
            ↔ ((l.client_max_body_size ≡ 0) ⊎ (size ≤ l.client_max_body_size)))
  unfolding validate_content_length client_body_size_limit
  validate_content_length-body_size http l header size e = (rw e, ground arith)
