-- ===== src/Server/Sensors.antt =====
-- server/src/sensors.c, sensors.h: the sensors and the decoding of their frames.
-- `strtol`, the two conversions through `float` and the stack behind a text of two characters are
-- parameters.
pub mod Bits
pub mod Decoding
use Prim.Native.Nat.{bit_and}
use cofi_ty_home.Common.{
  ℕ, ◌+◌, ◌/◌, ◌≡◌, Bool, true, false, ◌||◌, Option, none, some, List, [], ◌∷◌, ◌++◌, ◌==◌,
  if◌then◌else◌, Text, codes, str_eq, take, drop, get_elem?,
}
use cofi_ty_home.Common.Int.{ℤ, pos}
use cofi_ty_home.Common.Search.{find_first, update_first}

pub data TypeCapteur : Type 0 where
  temperature contact interrupteur presence horloge : TypeCapteur

-- `temp`, `contact`, `switchButton`, `presence` and `currentTime` are the first `int` of the data,
-- `luminosite` is the second. `decode` is the function pointer, named by the type it is for.
pub record Sensor : Type 0 where
  pub type : TypeCapteur
  pub id : Text
  pub name : Text
  pub first : ℤ
  pub second : ℤ
  pub decode : TypeCapteur

-- `logValue`, for a log that can be opened.
pub record LogValue : Type 0 where
  pub id : Text
  pub name : Text
  pub value : ℤ

-- `strtol (…, 16)` of a text, the conversion of its value to a temperature and to a luminosity,
-- and what the stack holds behind the two characters.
pub record Conversion : Type 0 where
  pub strtol : Text → ℤ
  pub to_temperature : ℤ → ℤ
  pub to_luminosity : ℤ → ℤ
  pub stack : Text

-- The sensors, their log (newest first) and the coins of the semaphore `checkRules`.
pub record House : Type 0 where
  pub sensors : List Sensor
  pub log : List LogValue
  pub check_rules : ℕ

-- `trame[i]`, in a buffer that is zero behind the frame.
unfoldable pub char_at : Text → ℕ → ℕ
char_at trame i = elim (get_elem? trame i) [ none ↦ 0 | some c ↦ c ]

abbrev pub has_key : Text → Sensor → Bool
has_key id_or_name s = str_eq s.id id_or_name || str_eq s.name id_or_name

unfoldable pub get_sensor : List Sensor → Text → Option Sensor
unfolding find_first
get_sensor sensors id_or_name = find_first (has_key id_or_name) sensors

-- `((trame[15] >> 1) & '1') == '1'` means absent.
unfoldable pub presence_of : ℕ → ℤ
presence_of c = if bit_and (c / 2) b'1' == b'1' then pos 0 else pos 1

unfoldable pub contact_of : ℕ → ℤ
contact_of c = if bit_and c b'1' == b'1' then pos 1 else pos 0

-- `buttonPressed`: NONE, A0, A1, B0, B1 are 0 to 4.
unfoldable pub button_of : ℕ → ℤ
button_of db3 =
    if db3 == b'7'
    then pos 3
    else if db3 == b'5'
    then pos 4
    else if db3 == b'3'
    then pos 1
    else if db3 == b'1'
    then pos 2
    else pos 0

-- `strtol` of the two characters at `i`.
unfoldable pub read_hex : Conversion → Text → ℕ → ℤ
unfolding char_at
read_hex c trame i = c.strtol (char_at trame i ∷ char_at trame (i + 1) ∷ c.stack)

unfoldable pub decode_presence : Conversion → Text → Sensor → Sensor
unfolding char_at read_hex presence_of
decode_presence c trame s = record s {
  first = presence_of (char_at trame 15);
  second = c.to_luminosity (read_hex c trame 10);
}

unfoldable pub decode_interrupteur : Text → Sensor → Sensor
unfolding char_at button_of
decode_interrupteur trame s = record s { first = button_of (char_at trame 8) }

unfoldable pub decode_contact : Text → Sensor → Sensor
unfolding char_at contact_of
decode_contact trame s = record s { first = contact_of (char_at trame 15) }

unfoldable pub decode_temperature : Conversion → Text → Sensor → Sensor
unfolding read_hex
decode_temperature c trame s = record s { first = c.to_temperature (read_hex c trame 12) }

-- A call through the pointer `decode`.
unfoldable pub decoded : Conversion → Text → TypeCapteur → Sensor → Sensor
unfolding decode_presence decode_interrupteur decode_contact decode_temperature
decoded c trame temperature s = decode_temperature c trame s
decoded c trame contact s = decode_contact trame s
decoded c trame interrupteur s = decode_interrupteur trame s
decoded c trame presence s = decode_presence c trame s
decoded c trame horloge s = s

-- The lines that the function writes to the log, from the sensor it has decoded, newest first. The
-- temperature goes under the name of the contact.
unfoldable pub logged : TypeCapteur → Sensor → List LogValue
logged temperature s = record { id = s.id; name = codes "contact"; value = s.first } ∷ []
logged contact s = record { id = s.id; name = codes "contact"; value = s.first } ∷ []
logged interrupteur s = record { id = s.id; name = codes "switchButton"; value = s.first } ∷ []
logged presence s =
    record { id = s.id; name = codes "luminosite"; value = s.second }
    ∷ record { id = s.id; name = codes "presence"; value = s.first }
    ∷ []
logged horloge s = []

-- The eight characters of the sender.
unfoldable pub frame_id : Text → Text
frame_id trame = take 8 (drop 16 trame)

unfoldable pub decode_trame : Conversion → Text → House → House
decode_trame c trame h = elim (get_sensor h.sensors (frame_id trame)) [
  | none ↦ h
  | some capteur ↦ record {
    sensors = update_first (has_key (frame_id trame)) (λ s. decoded c trame s.decode s) h.sensors;
    log = logged capteur.decode (decoded c trame capteur.decode capteur) ++ h.log;
    check_rules = h.check_rules + 1;
  }
]
