-- ===== src/Session/Samples.antt =====
-- A float type, a cipher and a codec of sessions that fulfil what src/pricewatch/session relies on.
use pricewatch.Base.{
  ℕ, zero, suc, ◌≡◌, refl, true, Option, none, some, List, [], ◌∷◌, codes, length, arith, ltb, leb,
  ap, ◌∙◌,
}
use pricewatch.Errors.{ok}
use pricewatch.Session.Stored.{Floats, IsLinear, Cookie, Origin, StoredSession}
use pricewatch.Session.Crypto.{Bytes, Fernet, IsFernet, SessionCrypto, key_path}
use pricewatch.Session.Store.{Codec, IsCodec}

-- Whole numbers from -1 on, each by its successor.
abbrev pub whole_floats : Floats
whole_floats = record { F = ℕ; zero_float = 1; session_cookie_expiry = 0; lt = ltb; le = leb }

pub whole_floats-IsLinear : IsLinear whole_floats
whole_floats-IsLinear = record {
  le_of_lt = λ a b h. ground arith;
  le_of_not_lt = λ a b h. ground arith;
  le_refl = λ a. ground arith;
  le_trans = λ a b c h k. ground arith;
}

-- A cipher that puts its random number before the text.
abbrev pub rest_of : Bytes → Option Bytes
rest_of [] = none
rest_of (n ∷ p) = some p

abbrev pub prefix_fernet : Fernet
prefix_fernet = record {
  accepts = λ k. true;
  encrypt_with = λ k n p. n ∷ p;
  decrypt_with = λ k t. rest_of t;
}

pub prefix_fernet-IsFernet : IsFernet prefix_fernet
prefix_fernet-IsFernet = record { decrypt-encrypt = λ k n p. refl }

-- A way to write values in front of bytes and to read them back.
record Coder (A : Type 0) : Type 0 where
  write : A → Bytes → Bytes
  parse : Bytes → A × Bytes
  parse-write : (a : A) (rest : Bytes) → parse (write a rest) ≡ (a, rest)

abbrev head_of : Bytes → ℕ × Bytes
head_of [] = (0, [])
head_of (n ∷ r) = (n, r)

abbrev number : Coder ℕ
number = record { write = λ n r. n ∷ r; parse = head_of; parse-write = λ n r. refl }

module _ {A B : Type 0} (a : Coder A) (b : Coder B) where
  abbrev pair : Coder (A × B)
  pair = record {
    write = λ p r. a.write (p.0) (b.write (p.1) r);
    parse = λ s. let (x, r) = a.parse s in let (y, r') = b.parse r in ((x, y), r');
    parse-write = λ p r.
        ap (λ q. let (y, r') = b.parse (q.1) in ((q.0, y), r'))
          (a.parse-write (p.0) (b.write (p.1) r))
        ∙ ap (λ q. ((p.0, q.0), q.1)) (b.parse-write (p.1) r);
  }

module _ {A : Type 0} (a : Coder A) where
  write_all : List A → Bytes → Bytes
  write_all [] r = r
  write_all (x ∷ xs) r = a.write x (write_all xs r)

  parse_many : ℕ → Bytes → List A × Bytes
  parse_many zero r = ([], r)
  parse_many (suc n) r = let (x, r1) = a.parse r in let (xs, r2) = parse_many n r1 in (x ∷ xs, r2)

  parse_many-write : (xs : List A) (r : Bytes) → parse_many (length xs) (write_all xs r) ≡ (xs, r)
  unfolding write_all parse_many
  parse_many-write [] r = refl
  parse_many-write (x ∷ xs) r =
      ap (λ q. let (ys, r2) = parse_many (length xs) (q.1) in (q.0 ∷ ys, r2))
        (a.parse-write x (write_all xs r))
      ∙ ap (λ q. (x ∷ q.0, q.1)) (parse_many-write xs r)

  list : Coder (List A)
  unfolding parse_many write_all
  list = record {
    write = λ xs r. length xs ∷ write_all xs r;
    parse = λ s. let (n, r) = head_of s in parse_many n r;
    parse-write = parse_many-write;
  }

abbrev option_of : ℕ × Bytes → Option ℕ × Bytes
option_of (zero, r) = (none, r)
option_of (suc n, r) = (some n, r)

abbrev write_option : Option ℕ → Bytes → Bytes
write_option none r = 0 ∷ r
write_option (some n) r = suc n ∷ r

option : Coder (Option ℕ)
option = record { write = write_option; parse = λ s. option_of (head_of s); parse-write = law }
  where
    law : (o : Option ℕ) (r : Bytes) → option_of (head_of (write_option o r)) ≡ (o, r)
    law none r = refl
    law (some n) r = refl

module _ {A B : Type 0} (a : Coder A) (to : B → A) (from : A → B)
    (back : (b : B) → from (to b) ≡ b) where
  abbrev via : Coder B
  via = record {
    write = λ b r. a.write (to b) r;
    parse = λ s. let (x, r) = a.parse s in (from x, r);
    parse-write =
        λ b r. ap (λ q. (from (q.0), q.1)) (a.parse-write (to b) r) ∙ ap (λ c. (c, r)) (back b);
  }

cookie : Coder (Cookie whole_floats)
unfolding list option
cookie =
    via (pair (list number) option) (λ (c : Cookie whole_floats). (c.name, c.expires))
      (λ p. record { name = p.0; expires = p.1 }) (λ c. refl)

origin : Coder (Origin whole_floats)
unfolding list
origin =
    via (pair (list number) (list (list number)))
      (λ (o : Origin whole_floats). (o.origin, o.local_storage))
      (λ p. record { origin = p.0; local_storage = p.1 }) (λ o. refl)

session : Coder (StoredSession whole_floats)
unfolding list cookie origin
session =
    via (pair (pair (list number) (list number)) (pair (list cookie) (list origin)))
      (λ (s : StoredSession whole_floats). ((s.account, s.captured_at), (s.cookies, s.origins)))
      (λ p. record {
        account = (p.0).0;
        captured_at = (p.0).1;
        cookies = (p.1).0;
        origins = (p.1).1;
      })
      (λ s. refl)

pub codec : Codec whole_floats
unfolding session
codec = record { dumps = λ s. session.write s []; loads = λ t. ok ((session.parse t).0) }

pub codec-IsCodec : IsCodec whole_floats codec
unfolding codec
codec-IsCodec s = ap (λ q. ok (q.0)) (session.parse-write s [])

abbrev pub crypto : SessionCrypto
crypto = record { key = codes "k"; source = key_path }

abbrev pub fresh_cookie : Cookie whole_floats
fresh_cookie = record { name = codes "sid"; expires = some 100 }

abbrev pub session_cookie : Cookie whole_floats
session_cookie = record { name = codes "tab"; expires = none }

abbrev pub shop : Origin whole_floats
shop = record { origin = codes "https://x.test"; local_storage = codes "token" ∷ [] }

abbrev pub sample : StoredSession whole_floats
sample = record {
  account = codes "asos-uk";
  captured_at = codes "2026-01-01";
  cookies = fresh_cookie ∷ session_cookie ∷ [];
  origins = shop ∷ [];
}
