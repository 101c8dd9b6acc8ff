-- ===== src/Server/Sensors/Decoding.antt =====
-- What a frame changes: the first sensor that its sender names, and nothing else.
use Prim.Native.Nat.{bit_and}
use mathlib.Core.Path.{subst}
use cofi_ty_home.Common.{
  ap, sym, ◌∙◌, ◌/◌, ◌==◌, Option-cases, ℕ, ◌+◌, ◌≤◌, ◌≡◌, refl, true, ◌⊎◌, inl, inr, none, some,
  List, [], ◌∷◌, ◌++◌, arith, Text, Bool-cases, Each, length,
}
use cofi_ty_home.Common.Int.{ℤ, pos}
use cofi_ty_home.Common.Search.{
  find_first-none, find_first-append, update_first, update_first-append, NoneOf,
  length-update_first,
}
use cofi_ty_home.Server.Sensors.{
  decode_temperature, decode_contact, decode_interrupteur, decode_presence, TypeCapteur,
  temperature, contact, interrupteur, presence, horloge, Sensor, Conversion, House, has_key,
  get_sensor, presence_of, contact_of, button_of, decoded, logged, frame_id, decode_trame, char_at,
}

get_sensor-none :
    (sensors : List Sensor) (k : Text) → NoneOf (has_key k) sensors → get_sensor sensors k ≡ none
unfolding get_sensor
get_sensor-none sensors k = find_first-none (has_key k) sensors

pub get_sensor-append :
    (before : List Sensor) (s : Sensor) (after : List Sensor) (k : Text)
    → NoneOf (has_key k) before
    → has_key k s ≡ true
    → get_sensor (before ++ s ∷ after) k ≡ some s
unfolding get_sensor
get_sensor-append before s after k = find_first-append (has_key k) before s after

-- A frame from a sender that no sensor has for its id or its name changes nothing: no value, no
-- line of the log, no coin for the rules.
pub decode_trame-unknown :
    (c : Conversion) (trame : Text) (h : House)
    → NoneOf (has_key (frame_id trame)) h.sensors
    → decode_trame c trame h ≡ h
unfolding decode_trame
decode_trame-unknown c trame h missing =
    rw (get_sensor-none h.sensors (frame_id trame) missing, decode_trame)

-- The first sensor with the sender's id or name takes the decoded values, the others stay; the
-- values go to the log, and the rules get one coin.
pub decode_trame-known :
    (c : Conversion) (trame : Text) (h : House) (before : List Sensor) (s : Sensor)
    (after : List Sensor)
    → h.sensors ≡ before ++ s ∷ after
    → NoneOf (has_key (frame_id trame)) before
    → has_key (frame_id trame) s ≡ true
    → decode_trame c trame h ≡ record {
      sensors = before ++ decoded c trame s.decode s ∷ after;
      log = logged s.decode (decoded c trame s.decode s) ++ h.log;
      check_rules = h.check_rules + 1;
    }
unfolding decode_trame
decode_trame-known c trame h before s after e clear hit = rw (
  e,
  get_sensor-append before s after (frame_id trame) clear hit,
  decode_trame,
  e,
  update_first-append (has_key (frame_id trame)) (λ s. decoded c trame s.decode s) before s after
      clear hit,
)

-- The values that a sensor's first `int` can have.
abbrev pub InRange : TypeCapteur → ℤ → Type 0
InRange temperature v = Unit
InRange contact v = (v ≡ pos 0) ⊎ (v ≡ pos 1)
InRange interrupteur v = (n : ℕ) × (v ≡ pos n) × (n ≤ 4)
InRange presence v = (v ≡ pos 0) ⊎ (v ≡ pos 1)
InRange horloge v = Unit

-- A sensor as the parser makes it, and as the frames leave it.
abbrev pub IsLoaded : Sensor → Type 0
IsLoaded s = (s.decode ≡ s.type) × InRange s.type s.first

abbrev pub AllLoaded : List Sensor → Type 0
AllLoaded ss = Each IsLoaded ss

contact_range : (c : ℕ) → (contact_of c ≡ pos 0) ⊎ (contact_of c ≡ pos 1)
unfolding contact_of
contact_range c = elim (Bool-cases (bit_and c b'1' == b'1')) [
  | inl odd ↦ inr (rw odd)
  | inr even ↦ inl (rw even)
]

presence_range : (c : ℕ) → (presence_of c ≡ pos 0) ⊎ (presence_of c ≡ pos 1)
unfolding presence_of
presence_range c = elim (Bool-cases (bit_and (c / 2) b'1' == b'1')) [
  | inl absent ↦ inl (rw absent)
  | inr present ↦ inr (rw present)
]

button_range : (c : ℕ) → (n : ℕ) × (button_of c ≡ pos n) × (n ≤ 4)
unfolding button_of
button_range c = elim (Bool-cases (c == b'7')) [
  | inl e7 ↦ (3, rw e7, omega arith)
  | inr n7 ↦ elim (Bool-cases (c == b'5')) [
    | inl e5 ↦ (4, rw (n7, e5), omega arith)
    | inr n5 ↦ elim (Bool-cases (c == b'3')) [
      | inl e3 ↦ (1, rw (n7, n5, e3), omega arith)
      | inr n3 ↦ elim (Bool-cases (c == b'1')) [
        | inl e1 ↦ (2, rw (n7, n5, n3, e1), omega arith)
        | inr n1 ↦ (0, rw (n7, n5, n3, n1), omega arith)
      ]
    ]
  ]
]

InRange-at :
    (s : Sensor) (type : TypeCapteur) (v : ℤ)
    → s.decode ≡ type
    → s.decode ≡ s.type
    → InRange type v
    → InRange s.type v
InRange-at s type v e l r = subst (λ t. InRange t v) (sym e ∙ l) r

decoded-IsLoaded :
    (c : Conversion) (trame : Text) (type : TypeCapteur) (s : Sensor)
    → s.decode ≡ type
    → IsLoaded s
    → IsLoaded (decoded c trame type s)
unfolding decoded decode_temperature decode_contact decode_interrupteur decode_presence
decoded-IsLoaded c trame temperature s e l = (l.0, InRange-at s temperature _ e l.0 tt)
decoded-IsLoaded c trame contact s e l =
    (l.0, InRange-at s contact _ e l.0 (contact_range (char_at trame 15)))
decoded-IsLoaded c trame interrupteur s e l =
    (l.0, InRange-at s interrupteur _ e l.0 (button_range (char_at trame 8)))
decoded-IsLoaded c trame presence s e l =
    (l.0, InRange-at s presence _ e l.0 (presence_range (char_at trame 15)))
decoded-IsLoaded c trame horloge s e l = l

update-AllLoaded :
    (c : Conversion) (trame k : Text) (ss : List Sensor)
    → AllLoaded ss
    → AllLoaded (update_first (has_key k) (λ s. decoded c trame s.decode s) ss)
unfolding update_first
update-AllLoaded c trame k [] all = tt
update-AllLoaded c trame k (s ∷ ss) all = elim (Bool-cases (has_key k s)) [
  | inl hit ↦ rw hit (decoded-IsLoaded c trame s.decode s refl all.0, all.1)
  | inr miss ↦ rw miss (all.0, update-AllLoaded c trame k ss all.1)
]

-- If every sensor has the decoder of its own type and a value in the range of that type (0 or 1 for
-- a contact and a presence, 0 to 4 for the buttons), then this holds after any frame.
pub decode_trame-AllLoaded :
    (c : Conversion) (trame : Text) (h : House)
    → AllLoaded h.sensors
    → AllLoaded (decode_trame c trame h).sensors
unfolding decode_trame
decode_trame-AllLoaded c trame h all = elim (Option-cases (get_sensor h.sensors (frame_id trame))) [
  | inl e ↦ rw (e, decode_trame) all
  | inr (s, e) ↦ rw (e, decode_trame) (update-AllLoaded c trame (frame_id trame) h.sensors all)
]

pub decode_trame-length :
    (c : Conversion) (trame : Text) (h : House)
    → length (decode_trame c trame h).sensors ≡ length h.sensors
unfolding decode_trame
decode_trame-length c trame h = elim (Option-cases (get_sensor h.sensors (frame_id trame))) [
  | inl e ↦ rw (e, decode_trame) refl
  | inr (s, e) ↦ rw (e, decode_trame) (length-update_first (has_key (frame_id trame)) _ h.sensors)
]

abbrev pub is_clock : TypeCapteur → ℕ
is_clock horloge = 1
is_clock _ = 0

-- How many sensors are clocks.
abbrev pub clocks : List Sensor → ℕ
clocks [] = 0
clocks (s ∷ ss) = is_clock s.type + clocks ss

decoded-type :
    (c : Conversion) (trame : Text) (type : TypeCapteur) (s : Sensor)
    → (decoded c trame type s).type ≡ s.type
unfolding decoded decode_temperature decode_contact decode_interrupteur decode_presence
decoded-type c trame temperature s = refl
decoded-type c trame contact s = refl
decoded-type c trame interrupteur s = refl
decoded-type c trame presence s = refl
decoded-type c trame horloge s = refl

update-clocks :
    (c : Conversion) (trame k : Text) (ss : List Sensor)
    → clocks (update_first (has_key k) (λ s. decoded c trame s.decode s) ss) ≡ clocks ss
unfolding update_first
update-clocks c trame k [] = refl
update-clocks c trame k (s ∷ ss) = elim (Bool-cases (has_key k s)) [
  | inl hit ↦ rw hit (ap (λ t. is_clock t + clocks ss) (decoded-type c trame s.decode s))
  | inr miss ↦ rw miss (ap (λ n. is_clock s.type + n) (update-clocks c trame k ss))
]

-- A frame makes no sensor a clock, and no clock another sensor.
pub decode_trame-clocks :
    (c : Conversion) (trame : Text) (h : House)
    → clocks (decode_trame c trame h).sensors ≡ clocks h.sensors
unfolding decode_trame
decode_trame-clocks c trame h = elim (Option-cases (get_sensor h.sensors (frame_id trame))) [
  | inl e ↦ rw (e, decode_trame) refl
  | inr (s, e) ↦ rw (e, decode_trame) (update-clocks c trame (frame_id trame) h.sensors)
]
