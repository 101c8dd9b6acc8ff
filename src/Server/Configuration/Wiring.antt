-- ===== src/Server/Configuration/Wiring.antt =====
-- What holds of a configuration while it is parsed, whatever the files say.
use mathlib.Core.Path.{subst}
use cofi_ty_home.Common.{
  ℕ, suc, ◌+◌, ◌<◌, ◌≤◌, ◌≡◌, refl, ap, Bool, true, false, Option, none, some, List, [], ◌∷◌, ◌++◌,
  arith, if◌then◌else◌, length, length-append, ltb, Text, Each, Each-last, Each-map, Option-cases,
  Bool-cases, inl, inr,
}
use cofi_ty_home.Server.Sensors.{
  TypeCapteur, temperature, contact, interrupteur, presence, horloge, Sensor, has_key,
}
use cofi_ty_home.Server.Sensors.Decoding.{IsLoaded, AllLoaded, is_clock, clocks}
use cofi_ty_home.Server.Rules.{
  Condition, Rule, DataPtr, locate_sensor, set_condition_name, Cell, with_property, set, refused,
  corrupts, property_cell, SetName,
}
use cofi_ty_home.Server.Configuration.{
  Config, Parse, reduced, ended, corrupted, ◌then_parse◌, split_last, behind, use_current, current,
}

-- A property of the configuration that a parsing leaves, if the program goes on.
abbrev pub Yields : (Config → Type 0) → Parse → Type 0
Yields P (reduced c) = P c
Yields P ended = Unit
Yields P corrupted = Unit

pub Yields-then_parse :
    (P Q : Config → Type 0) (r : Parse) (f : Config → Parse)
    → Yields P r
    → ((c : Config) → P c → Yields Q (f c))
    → Yields Q (r then_parse f)
Yields-then_parse P Q (reduced c) f h k = k c h
Yields-then_parse P Q ended f h k = tt
Yields-then_parse P Q corrupted f h k = tt

pub Yields-if :
    (P : Config → Type 0) (b : Bool) (r q : Parse)
    → (b ≡ true → Yields P r)
    → (b ≡ false → Yields P q)
    → Yields P (if b then r else q)
Yields-if P true r q h k = h refl
Yields-if P false r q h k = k refl

-- A pointer leads to one of the sensors; only where one of them is a clock it may be null.
abbrev pub Points : List Sensor → Option DataPtr → Type 0
Points ss none = 0 < clocks ss
Points ss (some p) = p.sensor < length ss

abbrev pub IsWiredTo : List Sensor → Rule → Type 0
IsWiredTo ss r = Each (λ cnd. Points ss cnd.at) r.conditions

-- Every sensor has the decoder of its type and a value in its range, and every condition points into
-- the data of a sensor, or has a null pointer if there is a clock.
abbrev pub IsWired : Config → Type 0
IsWired c = AllLoaded c.sensors × Each (IsWiredTo c.sensors) c.rules

module _ {A : Type 0} where
  longer :
      (y z : A) (xs before : List A) (x : A) (r : Option (List A × A))
      → ((b : List A) (l : A) → r ≡ some (b, l) → z ∷ xs ≡ b ++ l ∷ [])
      → behind y r ≡ some (before, x)
      → y ∷ z ∷ xs ≡ before ++ x ∷ []
  longer y z xs before x none h e = cc
  longer y z xs before x (some (b, l)) h e =
      let front : y ∷ b ≡ before = cc in
      let last : l ≡ x = cc in
      subst (λ q. y ∷ z ∷ xs ≡ q ++ x ∷ []) front
        (subst (λ q. y ∷ z ∷ xs ≡ (y ∷ b) ++ q ∷ []) last (ap (◌∷◌ y) (h b l refl)))

  pub split_last-append :
      (xs before : List A) (x : A) → split_last xs ≡ some (before, x) → xs ≡ before ++ x ∷ []
  unfolding split_last
  split_last-append [] before x e = cc
  split_last-append (y ∷ []) before x e = cc
  split_last-append (y ∷ z ∷ xs) before x e =
      longer y z xs before x (split_last (z ∷ xs)) (λ b l. split_last-append (z ∷ xs) b l) e

pub Yields-current :
    {A : Type 0} (P : Config → Type 0) (xs : List A) (f : List A → A → Parse)
    → ((before : List A) (x : A) → xs ≡ before ++ x ∷ [] → Yields P (f before x))
    → Yields P (current xs f)
unfolding split_last
Yields-current {A = A} P xs f h = go (split_last xs) (split_last-append xs)
  where
    go :
        (r : Option (List A × A))
        → ((before : List A) (x : A) → r ≡ some (before, x) → xs ≡ before ++ x ∷ [])
        → Yields P (use_current r f)
    go none k = tt
    go (some (before, x)) k = h before x (k before x refl)

Points-weaken :
    (ss ts : List Sensor) (p : Option DataPtr)
    → length ss ≤ length ts
    → clocks ss ≤ clocks ts
    → Points ss p
    → Points ts p
Points-weaken ss ts none le more h = omega arith
Points-weaken ss ts (some p) le more h = omega arith

pub clocks-append : (ss ts : List Sensor) → clocks (ss ++ ts) ≡ clocks ss + clocks ts
clocks-append [] ts = omega arith
clocks-append (s ∷ ss) ts = omega (arith, clocks-append ss ts)

pub located_below :
    (i : ℕ) (ss : List Sensor) (k : Text) (j : ℕ) (s : Sensor)
    → locate_sensor i ss k ≡ some (j, s)
    → j < i + length ss
unfolding locate_sensor
located_below i [] k j s e = cc
located_below i (t ∷ ss) k j s e = ground (arith, located_below (suc i) ss k j s)

located_clock :
    (i : ℕ) (ss : List Sensor) (k : Text) (j : ℕ) (s : Sensor)
    → locate_sensor i ss k ≡ some (j, s)
    → is_clock s.type ≤ clocks ss
unfolding locate_sensor
located_clock i [] k j s e = cc
located_clock i (t ∷ ss) k j s e = elim (Bool-cases (has_key k t)) [
  | inl hit ↦
      let found = rw hit at e in
      let same : t ≡ s = cc in
      subst (λ x. is_clock x.type ≤ is_clock t.type + clocks ss) same (omega arith)
  | inr miss ↦ omega (arith, located_clock (suc i) ss k j s (rw miss at e))
]

-- Only a clock accepts a property without data.
no_cell-clock :
    (type : TypeCapteur) (n : Text) → property_cell type n ≡ some none → is_clock type ≡ 1
unfolding property_cell
no_cell-clock temperature n e = ground (arith, e)
no_cell-clock contact n e = ground (arith, e)
no_cell-clock interrupteur n e = ground (arith, e)
no_cell-clock presence n e = ground (arith, e)
no_cell-clock horloge n e = refl

-- The condition that `setConditionName` makes points to one of the sensors, or names a clock.
abbrev pub Wires : List Sensor → SetName → Type 0
Wires ss (set cnd) = Points ss cnd.at
Wires ss refused = Unit
Wires ss corrupts = Unit

pub set_condition_name-Wires :
    (ss : List Sensor) (cnd : Condition) (sensor_id cnd_name : Text)
    → cnd.at ≡ none
    → Wires ss (set_condition_name ss cnd sensor_id cnd_name)
unfolding set_condition_name
set_condition_name-Wires ss cnd sensor_id cnd_name e =
    elim (Bool-cases (ltb (length sensor_id) 9)) [
      | inr long ↦ rw long tt
      | inl short ↦ elim (Option-cases (locate_sensor 0 ss sensor_id)) [
        | inl missing ↦ rw (short, missing) tt
        | inr ((i, s), found) ↦
            rw (short, found)
              (with_property-Wires (property_cell s.type cnd_name)
                (omega (arith, located_below 0 ss sensor_id i s found))
                (λ none_there. omega (
                  arith,
                  located_clock 0 ss sensor_id i s found,
                  no_cell-clock s.type cnd_name none_there,
                )))
      ]
    ]
  where
    with_property-Wires :
        {i : ℕ} (r : Option (Option Cell))
        → i < length ss
        → (r ≡ some none → 0 < clocks ss)
        → Wires ss (with_property i r cnd)
    with_property-Wires none lt clock = tt
    with_property-Wires (some none) lt clock = rw e (clock refl)
    with_property-Wires (some (some cell)) lt clock = lt

pub sensors-IsWired :
    (c : Config) (ss : List Sensor)
    → IsWired c
    → AllLoaded ss
    → length c.sensors ≤ length ss
    → clocks c.sensors ≤ clocks ss
    → AllLoaded ss × Each (IsWiredTo ss) c.rules
sensors-IsWired c ss w loaded le more = (
  loaded,
  Each-map (λ r h. Each-map (λ cnd k. Points-weaken c.sensors ss cnd.at le more k) r.conditions h)
      c.rules w.1,
)

-- The current sensor is changed, but not its type, its decoder and its value.
pub last_sensor-IsWired :
    (c : Config) (before : List Sensor) (s s' : Sensor)
    → IsWired c
    → c.sensors ≡ before ++ s ∷ []
    → s'.type ≡ s.type
    → (IsLoaded s → IsLoaded s')
    → AllLoaded (before ++ s' ∷ []) × Each (IsWiredTo (before ++ s' ∷ [])) c.rules
last_sensor-IsWired c before s s' w e same h =
    sensors-IsWired c (before ++ s' ∷ []) w
      (Each-last IsLoaded before s s' h (subst AllLoaded e w.0))
      (rw e (omega (arith, length-append before (s ∷ []), length-append before (s' ∷ []))))
      (rw e (
        omega
          (arith, clocks-append before (s ∷ []), clocks-append before (s' ∷ []), ap is_clock same)))

pub last_rule-IsWired :
    (c : Config) (before : List Rule) (r r' : Rule)
    → IsWired c
    → c.rules ≡ before ++ r ∷ []
    → (IsWiredTo c.sensors r → IsWiredTo c.sensors r')
    → IsWired (record c { rules = before ++ r' ∷ [] })
last_rule-IsWired c before r r' w e h =
    let P : Rule → Type 0 = IsWiredTo c.sensors in
    (w.0, Each-last P before r r' h (subst (Each P) e w.1))
