-- ===== src/Bundle/Json/Unique.antt =====
-- Which JSON values the check of duplicate fields accepts, by their tokens.
use laya_go.Prelude.{
  ℕ, zero, suc, ◌+◌, ◌≤◌, ◌<◌, ◌≡◌, ◌⊎◌, inl, inr, refl, String, true, List, [], ◌∷◌, All, Fresh,
  Distinct, length, ltb, arith,
}
use laya_go.Errors.{
  Error, invalid_bundle, matches, matches_sentinel, Outcome, ok, err, ◌>>=◌, ◌>>◌, refuse,
}
use laya_go.Question.Valid.{Admits, Admits-cons}
use laya_go.Bundle.Text.{byte_length}
use laya_go.Bundle.Rules.{bad_bundle}
use laya_go.Bundle.Valid.Sections.{Fresh-Tests}
use laya_go.Bundle.Valid.{Accepts, Accepts-iff, ◌&◌}
use laya_go.Bundle.Json.Value.{
  Json, null, plain, string, array, object, Elements, nil, element, Fields, end, field, tokens,
  element_tokens, field_tokens, keys,
}
use laya_go.Bundle.Json.{
  Token, closing, consume_json_value, consume_fields, consume_elements, require_eof,
  reject_duplicate_fields,
}

-- A value at a depth: nested at most 64 deep, each key of at most 512 bytes, no object with a key twice.
abbrev mutual
  pub IsUnique : ℕ → Json → Type 0
  IsUnique d null = d ≤ 64
  IsUnique d plain = d ≤ 64
  IsUnique d (string s) = d ≤ 64
  IsUnique d (array es) = (d ≤ 64) & AreUnique (suc d) es
  IsUnique d (object fs) = (d ≤ 64) & HaveUnique (suc d) fs & Distinct (keys fs)

  pub AreUnique : ℕ → Elements → Type 0
  AreUnique d nil = Unit
  AreUnique d (element v es) = IsUnique d v & AreUnique d es

  pub HaveUnique : ℕ → Fields → Type 0
  HaveUnique d end = Unit
  HaveUnique d (field k v fs) = (byte_length k ≤ 512) & IsUnique d v & HaveUnique d fs

-- How many tokens there are.
abbrev mutual
  count : Json → ℕ
  count null = 1
  count plain = 1
  count (string s) = 1
  count (array es) = 2 + count_elements es
  count (object fs) = 2 + count_fields fs

  count_elements : Elements → ℕ
  count_elements nil = 0
  count_elements (element v es) = count v + count_elements es

  count_fields : Fields → ℕ
  count_fields end = 0
  count_fields (field k v fs) = suc (count v + count_fields fs)

mutual
  unfolding tokens

  length-tokens : (v : Json) (ts : List Token) → length (tokens v ts) ≡ count v + length ts
  length-tokens null ts = ground arith
  length-tokens plain ts = ground arith
  length-tokens (string s) ts = ground arith
  length-tokens (array es) ts = ground (arith, length-elements es (closing ∷ ts))
  length-tokens (object fs) ts = ground (arith, length-fields fs (closing ∷ ts))

  length-elements :
      (es : Elements) (ts : List Token)
      → length (element_tokens es ts) ≡ count_elements es + length ts
  length-elements nil ts = ground arith
  length-elements (element v es) ts =
      ground (arith, length-tokens v (element_tokens es ts), length-elements es ts)

  length-fields :
      (fs : Fields) (ts : List Token) → length (field_tokens fs ts) ≡ count_fields fs + length ts
  length-fields end ts = ground arith
  length-fields (field k v fs) ts =
      ground (arith, length-tokens v (field_tokens fs ts), length-fields fs ts)

count-positive : (v : Json) → 0 < count v
count-positive null = omega arith
count-positive plain = omega arith
count-positive (string s) = omega arith
count-positive (array es) = omega arith
count-positive (object fs) = omega arith

-- A function that goes on exactly if `P`, with what it gives, and otherwise fails on the bundle.
abbrev Gives : {A : Type 0} → Type 0 → A → Outcome A → Type 0
Gives P a o =
    (P × (o ≡ ok a)) ⊎ ((P → ⊥) × (e : Error) × (o ≡ err e) × (matches e invalid_bundle ≡ true))

andthen :
    {A B : Type 0} {P Q : Type 0} {m : Outcome A} {a : A} {b : B} (k : A → Outcome B)
    → Gives P a m
    → Gives Q b (k a)
    → Gives (P & Q) b (m >>= k)
andthen k (inl (p, e)) (inl (q, d)) = inl ((p, q), rw e d)
andthen k (inl (p, e)) (inr (nope, x, d, c)) = inr ((λ (_, q). nope q), x, rw e d, c)
andthen k (inr (nope, x, d, c)) b = inr ((λ (p, _). nope p), x, rw d refl, c)

infixr 3 ◌also◌
◌also◌ :
    {B : Type 0} {P Q : Type 0} {m : Outcome (Unit {0})} {b : B} {n : Outcome B}
    → Gives P tt m
    → Gives Q b n
    → Gives (P & Q) b (m >> n)
inl (p, e) also inl (q, d) = inl ((p, q), rw e d)
inl (p, e) also inr (nope, x, d, k) = inr ((λ (_, q). nope q), x, rw e d, k)
inr (nope, x, d, k) also b = inr ((λ (p, _). nope p), x, rw d refl, k)

Gives-iff :
    {A : Type 0} {P Q : Type 0} {a : A} {o : Outcome A}
    → (P → Q)
    → (Q → P)
    → Gives P a o
    → Gives Q a o
Gives-iff f g (inl (p, e)) = inl (f p, e)
Gives-iff f g (inr (nope, x, e, k)) = inr ((λ q. nope (g q)), x, e, k)

shallow : (d : ℕ) → Gives (d ≤ 64) tt (refuse (ltb 64 d) bad_bundle)
shallow d = ground (arith, matches_sentinel invalid_bundle)

short : (k : String) → Gives (byte_length k ≤ 512) tt (refuse (ltb 512 (byte_length k)) bad_bundle)
short k = ground (arith, matches_sentinel invalid_bundle)

nothing_seen : (ks : List String) → All (λ k. Fresh k []) ks
nothing_seen = elim [ [] ↦ tt | k ∷ (ks → h) ↦ (tt, h) ]

go_on : {A : Type 0} (a : A) → Gives Unit a (ok a)
go_on a = inl (tt, refl)

consume_elements-element :
    (v : Json) (n d : ℕ) (ts : List Token)
    → consume_elements (suc n) d (tokens v ts)
      ≡ (consume_json_value n (suc d) (tokens v ts) >>= consume_elements n d)
unfolding tokens consume_json_value
consume_elements-element null n d ts = refl
consume_elements-element plain n d ts = refl
consume_elements-element (string s) n d ts = refl
consume_elements-element (array es) n d ts = refl
consume_elements-element (object fs) n d ts = refl

mutual
  unfolding tokens consume_json_value

  consume_json_value-Gives :
      (v : Json) (n d : ℕ) (ts : List Token)
      → count v ≤ n
      → Gives (IsUnique d v) ts (consume_json_value n d (tokens v ts))
  consume_json_value-Gives null zero d ts h = absurd (omega arith)
  consume_json_value-Gives null (suc n) d ts h =
      Gives-iff (λ (p, _). p) (λ p. (p, tt)) (shallow d also go_on ts)
  consume_json_value-Gives plain zero d ts h = absurd (omega arith)
  consume_json_value-Gives plain (suc n) d ts h =
      Gives-iff (λ (p, _). p) (λ p. (p, tt)) (shallow d also go_on ts)
  consume_json_value-Gives (string s) zero d ts h = absurd (omega arith)
  consume_json_value-Gives (string s) (suc n) d ts h =
      Gives-iff (λ (p, _). p) (λ p. (p, tt)) (shallow d also go_on ts)
  consume_json_value-Gives (array es) zero d ts h = absurd (omega arith)
  consume_json_value-Gives (array es) (suc n) d ts h =
      shallow d also consume_elements-Gives es n d ts (omega arith)
  consume_json_value-Gives (object fs) zero d ts h = absurd (omega arith)
  consume_json_value-Gives (object fs) (suc n) d ts h =
      Gives-iff (λ (p, (q, (_, u))). (p, (q, u)))
        (λ (p, (q, u)). (p, (q, (nothing_seen (keys fs), u))))
        (shallow d also consume_fields-Gives fs n d [] ts (omega arith))

  consume_elements-Gives :
      (es : Elements) (n d : ℕ) (ts : List Token)
      → suc (count_elements es) ≤ n
      → Gives (AreUnique (suc d) es) ts (consume_elements n d (element_tokens es (closing ∷ ts)))
  consume_elements-Gives nil zero d ts h = absurd (omega arith)
  consume_elements-Gives nil (suc n) d ts h = go_on ts
  consume_elements-Gives (element v es) zero d ts h = absurd (omega arith)
  consume_elements-Gives (element v es) (suc n) d ts h =
      let rest = element_tokens es (closing ∷ ts) in
      let c = count-positive v in
      rw (consume_elements-element v n d rest) (
        andthen (consume_elements n d) (consume_json_value-Gives v n (suc d) rest (omega arith))
          (consume_elements-Gives es n d ts (omega arith)))

  consume_fields-Gives :
      (fs : Fields) (n d : ℕ) (seen : List String) (ts : List Token)
      → suc (count_fields fs) ≤ n
      → Gives
          (HaveUnique (suc d) fs & Admits seen (keys fs))
          ts
          (consume_fields n d seen (field_tokens fs (closing ∷ ts)))
  consume_fields-Gives end zero d seen ts h = absurd (omega arith)
  consume_fields-Gives end (suc n) d seen ts h = inl ((tt, (tt, tt)), refl)
  consume_fields-Gives (field k v fs) zero d seen ts h = absurd (omega arith)
  consume_fields-Gives (field k v fs) (suc n) d seen ts h =
      let rest = field_tokens fs (closing ∷ ts) in
      let c = count-positive v in
      Gives-iff (λ (s, (f, (u, (r, m)))). ((s, (u, r)), (Admits-cons k seen (keys fs)).0 (f, m)))
        (λ ((s, (u, r)), m).
          let (f, a) = (Admits-cons k seen (keys fs)).1 m in (s, (f, (u, (r, a)))))
        (short k
          also Fresh-Tests seen k
          also andthen (consume_fields n d (k ∷ seen))
              (consume_json_value-Gives v n (suc d) rest (omega arith))
              (consume_fields-Gives fs n d (k ∷ seen) ts (omega arith)))

-- On the tokens of a JSON value, `rejectDuplicateFields` accepts exactly the values that are nested at
-- most 64 deep, whose keys have at most 512 bytes, and no object of which, at any depth, has a key
-- twice; any other is refused as an invalid bundle.
pub reject_duplicate_fields-Accepts :
    (v : Json) → Accepts (IsUnique 0 v) (reject_duplicate_fields (tokens v []))
unfolding reject_duplicate_fields
reject_duplicate_fields-Accepts v =
    let n = length-tokens v [] in
    Accepts-iff (λ (p, _). p) (λ p. (p, tt))
      (andthen require_eof
        (consume_json_value-Gives v (suc (length (tokens v []))) 0 [] (omega arith)) (go_on tt))
