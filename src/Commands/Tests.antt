-- ===== src/Commands/Tests.antt =====
-- A login, and the theorems at it.
use pricewatch.Base.{◌≡◌, refl, true, false, none, some, [], ◌∷◌, codes, is_some}
use pricewatch.Errors.{ok}
use pricewatch.Session.Samples.{whole_floats, prefix_fernet, codec, crypto, fresh_cookie, shop}
use pricewatch.Session.Lock.{taken, busy}
use pricewatch.Commands.Login.{Probe, World, Place, run_login}
use pricewatch.Base.Unicode.{ascii}
use pricewatch.Capture.Recorder.{Response, malformed}
use pricewatch.Capture.Document.{whole}
use pricewatch.Commands.Discover.{Tools, Browsing, run_discover}
use pricewatch.Commands.Login.{LoginResult}
use pricewatch.Commands.Ends.{run_login-ends, run_login-succeeds}
use pricewatch.Commands.Discovered.{Discovered, run_discover-Discovered}

abbrev signed_out : Probe
signed_out = record { answer = ok none; clock = 2 }

abbrev named : Probe
named = record { answer = ok (some (codes "cust-7")); clock = 9 }

abbrev world : World whole_floats
world = record {
  has_adapter = true;
  attempts = record { outcome = busy; clock = 1 } ∷ record { outcome = taken; clock = 3 } ∷ [];
  deadline = 2;
  page = ok tt;
  probes = signed_out ∷ named ∷ [];
  probe_deadline = 5;
  confirmed = false;
  exported = ok (fresh_cookie ∷ [], shop ∷ []);
  nonce = 4;
  saved_at = codes "2026-01-01";
  captured_at = codes "2026-01-02";
  updated = ok tt;
}

abbrev place : Place whole_floats
place = record { disk = []; table = [] }

abbrev tools : Tools
tools = record {
  unicode = ascii;
  decoder = record { decode = λ bs. bs; loads = λ t. malformed; dumps = λ v. codes "null" };
  encode = λ t. t;
  urlsplit = λ t. some (codes "x.test", t);
}

abbrev page : Response
page = record {
  resource_type = codes "document";
  method = codes "GET";
  url = codes "https://x.test/saved";
  post_data = some none;
  request_headers = none;
  status = 200;
  response_headers = none;
  content_type = none;
  body = some (codes "29.99");
}

abbrev browsing : Browsing
browsing = record {
  attempts = record { outcome = taken; clock = 1 } ∷ [];
  deadline = 2;
  page = ok tt;
  responses = page ∷ page ∷ [];
  confirmed = true;
  stamp = codes "20260101T000000Z";
  capture = record {
    version = codes "0.1.0";
    account = codes "asos-uk";
    site = codes "asos";
    captured_at = codes "2026-01-01";
  };
  writing = whole;
}

run_discover-Discovered_example :
    Discovered tools
      (codes "asos-uk")
      (codes "captures")
      none
      browsing
      []
      (run_discover tools (codes "asos-uk") (codes "captures") none browsing (codes "daemon") [])
run_discover-Discovered_example =
    run_discover-Discovered tools (codes "asos-uk") (codes "captures") none browsing
      (codes "daemon") []

run_login-ends_example :
    is_some (
      (run_login whole_floats prefix_fernet codec crypto
        (codes "asos-uk")
        world
        (codes "daemon")
        (codes "asos")
        false
        place).0)
    ≡ true
run_login-ends_example =
    run_login-ends prefix_fernet codec crypto (codes "asos-uk") world (codes "daemon")
      (codes "asos") false place refl refl

run_login-succeeds_example :
    (r : LoginResult whole_floats) × ((run_login whole_floats prefix_fernet codec crypto
        (codes "asos-uk")
        world
        (codes "daemon")
        (codes "asos")
        true
        place).0
      ≡ some (ok r))
    × (r.verified ≡ true)
    × (r.identity ≡ some (codes "cust-7"))
run_login-succeeds_example =
    run_login-succeeds prefix_fernet codec crypto (codes "asos-uk") world (codes "daemon")
      (codes "asos") true place (record { outcome = busy; clock = 1 } ∷ [])
      (record { outcome = taken; clock = 3 }) [] (signed_out ∷ []) 9 b'c' (codes "ust-7") []
      (fresh_cookie ∷ []) (shop ∷ []) refl refl refl refl refl refl refl refl refl
