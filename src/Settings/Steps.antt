-- ===== src/Settings/Steps.antt =====
-- Constructions as chains of steps that succeed exactly under their conditions, and the steps.
use counter_cruiser.Prelude.{
  ◌≡◌, ◌≢◌, ◌↔◌, ◌≤◌, refl, inl, inr, Bool, true, Option, none, some, List, [], ◌∷◌, length, ltb,
  String, ℤ, arith, Exception, Result, ok, err, validation_error, ◌>>=◌, Bool-cases,
}
use counter_cruiser.Zone.{make_zone}
use counter_cruiser.Settings.Fields.{ZoneFields}
use counter_cruiser.Settings.Defs.{
  filled, checked, required, zone_of_fields, zones_of_fields, given_zones,
}

-- The construction succeeds exactly under the condition, and raises nothing but `ValidationError`.
pub record Decides {A : Type 0} (r : Result A) (P : Type 0) : Type 0 where
  pub sound : (a : A) → r ≡ ok a → P
  pub complete : P → (a : A) × (r ≡ ok a)
  pub raises : (e : Exception) → r ≡ err e → e ≡ validation_error

-- A field that is given has the property.
abbrev pub Given : {A : Type 0} → (A → Type 0) → Option A → Type 0
Given P none = Unit
Given P (some v) = P v

-- The field is given, with the property.
abbrev pub Required : {A : Type 0} → (A → Type 0) → Option A → Type 0
Required P none = ⊥
Required P (some v) = P v

abbrev pub AcceptsZone : ZoneFields → Type 0
AcceptsZone f = (f.id ≢ none) × (f.name ≢ none) × Required (λ p. 3 ≤ length p) f.polygon

abbrev pub AcceptsZones : List ZoneFields → Type 0
AcceptsZones [] = Unit
AcceptsZones (f ∷ fs) = AcceptsZone f × AcceptsZones fs

-- The last step succeeds always.
pub ok-Decides : {A : Type 0} (a : A) → Decides (ok a) (Unit {0})
ok-Decides a = record { sound = λ b h. tt; complete = λ u. (a, refl); raises = λ e h. cc }

pub Decides-iff :
    {A : Type 0} {r : Result A} {P Q : Type 0} → Decides r P → (P → Q) → (Q → P) → Decides r Q
Decides-iff d f g = record {
  sound = λ a h. f (d.sound a h);
  complete = λ q. d.complete (g q);
  raises = d.raises;
}

-- A step whose rest succeeds under one condition, whatever the step gives.
pub >>=-Decides :
    {A B : Type 0} (m : Result A) (k : A → Result B) (P Q : Type 0)
    → Decides m P
    → ((a : A) → Decides (k a) Q)
    → Decides (m >>= k) (P × Q)
>>=-Decides (ok a) k P Q here later = record {
  sound = λ b h. (here.sound a refl, (later a).sound b h);
  complete = λ pq. (later a).complete pq.1;
  raises = (later a).raises;
}
>>=-Decides (err x) k P Q here later = record {
  sound = λ b h. cc;
  complete = λ pq. let s = here.complete pq.0 in absurd (ground arith);
  raises = λ e h. here.raises e (ground arith);
}

pub checked-Decides :
    {A : Type 0} (test : A → Bool) (P : A → Type 0) (default : A) (o : Option A)
    → ((v : A) → (test v ≡ true) ↔ P v)
    → Decides (checked test default o) (Given P o)
checked-Decides test P default none h = ok-Decides default
checked-Decides test P default (some v) h = elim (Bool-cases (test v)) [
  | inl good ↦ rw good (Decides-iff (ok-Decides v) (λ u. (h v).0 good) (λ p. tt))
  | inr bad ↦ rw bad (record {
    sound = λ a s. cc;
    complete = λ p. let t = (h v).1 p in absurd (ground arith);
    raises = λ e s. ground arith;
  })
]

required-Decides :
    {A B : Type 0} (o : Option A) (k : A → Result B) (P : A → Type 0)
    → ((a : A) → Decides (k a) (P a))
    → Decides (required o >>= k) (Required P o)
required-Decides none k P h = record {
  sound = λ a s. cc;
  complete = λ u. absurd u;
  raises = λ e s. ground arith;
}
required-Decides (some a) k P h = h a

make_zone-Decides :
    (id name : String) (enabled : Bool) (polygon : List (ℤ × ℤ))
    → Decides (make_zone id name enabled polygon) (3 ≤ length polygon)
unfolding make_zone
make_zone-Decides id name enabled polygon = elim (Bool-cases (ltb (length polygon) 3)) [
  | inl few ↦ rw few (record {
    sound = λ a s. cc;
    complete = λ p. absurd (ground arith);
    raises = λ e s. ground arith;
  })
  | inr enough ↦ rw enough (Decides-iff (ok-Decides _) (λ u. ground arith) (λ p. tt))
]

present : {A : Type 0} (o : Option A) (Q : Type 0) → Required (λ _. Q) o ↔ ((o ≢ none) × Q)
present none Q = (λ u. absurd u, λ p. absurd (p.0 refl))
present (some a) Q = (λ q. (λ e. cc, q), λ p. p.1)

zone_of_fields-Decides : (f : ZoneFields) → Decides (zone_of_fields f) (AcceptsZone f)
unfolding zone_of_fields
zone_of_fields-Decides f =
    let Enough : Type 0 = Required (λ p. 3 ≤ length p) f.polygon in
    let polygon = λ (id name : String).
      required-Decides f.polygon _ (λ p. 3 ≤ length p)
        (make_zone-Decides id name (filled true f.enabled)) in
    let name = λ (id : String). required-Decides f.name _ (λ _. Enough) (polygon id) in
    let in_name = present f.name Enough in
    let in_id = present f.id (Required (λ _. Enough) f.name) in
    Decides-iff (required-Decides f.id _ (λ _. Required (λ _. Enough) f.name) name)
      (λ s. let (a, b) = in_id.0 s in let (c, d) = in_name.0 b in (a, c, d))
      (λ h. in_id.1 (h.0, in_name.1 (h.1, h.2)))

zones_of_fields-Decides : (fs : List ZoneFields) → Decides (zones_of_fields fs) (AcceptsZones fs)
unfolding zones_of_fields
zones_of_fields-Decides [] = ok-Decides []
zones_of_fields-Decides (f ∷ fs) =
    Decides-iff
      (>>=-Decides _ _ _ _ (zone_of_fields-Decides f)
        (λ z. >>=-Decides _ _ _ _ (zones_of_fields-Decides fs) (λ zs. ok-Decides (z ∷ zs))))
      (λ s. (s.0, s.1.0)) (λ h. (h.0, (h.1, tt)))

pub given_zones-Decides :
    (o : Option (List ZoneFields)) → Decides (given_zones o) (Given AcceptsZones o)
given_zones-Decides none = ok-Decides []
given_zones-Decides (some fs) = zones_of_fields-Decides fs
