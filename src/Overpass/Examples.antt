-- ===== src/Overpass/Examples.antt =====
-- What the service of Overpass says when it refuses a query.
use fletchling.Prelude.{◌≡◌, refl, some, none}
use fletchling.Geo.{codes}
use fletchling.Overpass.{timeout, dupe_query, match_body_against_errors}

says_timeout :
    match_body_against_errors
      (codes "error: Dispatcher_Client::request_read_and_idx::timeout. The server is busy")
    ≡ some timeout
unfolding match_body_against_errors
says_timeout = refl

says_duplicate :
    match_body_against_errors (codes "Dispatcher_Client::request_read_and_idx::duplicate_query")
    ≡ some dupe_query
unfolding match_body_against_errors
says_duplicate = refl

says_neither : match_body_against_errors (codes "Dispatcher_Client::") ≡ none
unfolding match_body_against_errors
says_neither = refl
