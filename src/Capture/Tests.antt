-- ===== src/Capture/Tests.antt =====
-- A browse of three responses, and the theorems at it.
use pricewatch.Base.{◌+◌, ◌≡◌, refl, none, some, [], ◌∷◌, codes, arith, filter, length}
use pricewatch.Base.Unicode.{ascii}
use pricewatch.Capture.Recorder.{Decoder, Response, Recorder, malformed, browse}
use pricewatch.Capture.Recorded.{IsSafe, browse-IsSafe, browse-counts, is_recorded}
use pricewatch.Base.{true, false, List, Text, Option, contains, if◌then◌else◌}
use pricewatch.Base.Dict.{lookup}
use pricewatch.Capture.Summary.{Endpoint, endpoint_key, Seen, group}
use pricewatch.Capture.Summarised.{Describes, of_endpoint, group-Describes}

abbrev bytes_as_text : Decoder
bytes_as_text = record { decode = λ bs. bs; loads = λ t. malformed; dumps = λ v. codes "null" }

abbrev page : Response
page = record {
  resource_type = codes "document";
  method = codes "GET";
  url = codes "https://x.test/saved";
  post_data = some none;
  request_headers = some ((codes "cookie", codes "sid=1") ∷ []);
  status = 200;
  response_headers = none;
  content_type = some (some (codes "text/html"));
  body = some (codes "29.99");
}

abbrev image : Response
image = record page { resource_type = codes "image" }

-- Reading the posted data raises.
abbrev upload : Response
upload = record page { post_data = none }

abbrev empty : Recorder
empty = record { max_exchanges = 1; exchanges = []; skipped = 0 }

browse-IsSafe_example :
    IsSafe ascii bytes_as_text 1
      (browse ascii bytes_as_text (page ∷ image ∷ upload ∷ page ∷ []) empty)
browse-IsSafe_example =
    browse-IsSafe ascii bytes_as_text (page ∷ image ∷ upload ∷ page ∷ []) empty
      (refl, omega arith, tt)

browse-counts_example :
    length ((browse ascii bytes_as_text (page ∷ image ∷ upload ∷ []) empty).exchanges)
      + (browse ascii bytes_as_text (page ∷ image ∷ upload ∷ []) empty).skipped
    ≡ 0 + 0 + length (filter is_recorded (page ∷ image ∷ upload ∷ []))
browse-counts_example = browse-counts ascii bytes_as_text (page ∷ image ∷ upload ∷ []) empty

abbrev at_saved : Endpoint
at_saved = record { method = codes "GET"; host = codes "x.test"; path = codes "/saved" }

abbrev answers : List Seen
answers =
    record { endpoint = at_saved; status = 200; json = true; size = 40 }
    ∷ record {
      endpoint = record at_saved { method = codes "POST" };
      status = 204;
      json = false;
      size = 0;
    }
    ∷ record { endpoint = at_saved; status = 429; json = false; size = 7 }
    ∷ []

group-Describes_example :
    Describes (of_endpoint at_saved answers) (lookup at_saved (group [] answers))
group-Describes_example = group-Describes at_saved answers

-- An `urlsplit` that refuses brackets.
abbrev split : Text → Option (Text × Text)
split t = if contains (codes "[") t then none else some (codes "x.test", t)

abbrev browsed : Recorder
browsed = browse ascii bytes_as_text (page ∷ []) empty
