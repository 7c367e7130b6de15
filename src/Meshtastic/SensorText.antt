-- ===== src/Meshtastic/SensorText.antt =====
-- The tests on sensor text of internal/meshtastic/dispatcher.go: `extractSensorShortID`,
-- `isAHSensorOutput` and `isGateSensorData`. The Unicode tables and the regular expressions are
-- library code, and a parameter.
use Prim.Native.String.{String}
use diginode_cc.Prelude.{
  ℕ, Bool, true, false, ◌&&◌, ◌||◌, Option, none, some, List, [], ◌∷◌, ◌==◌, if◌then◌else◌,
}
use diginode_cc.Prelude.Text.{codes, eq_text}

-- `strings.ToUpper`, and the first group of `sensorShortIDRe` and of `sensorTypeFieldRe` in a text.
pub record TextTools : Type 0 where
  pub to_upper : List ℕ → List ℕ
  pub find_short_id : List ℕ → Option (List ℕ)
  pub find_type : List ℕ → Option (List ℕ)

-- `strings.HasPrefix`
unfoldable pub has_prefix : List ℕ → List ℕ → Bool
has_prefix text [] = true
has_prefix [] (p ∷ ps) = false
has_prefix (c ∷ text) (p ∷ ps) = let rest = has_prefix text ps in c == p && rest

-- `strings.Contains`
unfoldable pub contains_text : List ℕ → List ℕ → Bool
unfolding has_prefix
contains_text [] word = has_prefix [] word
contains_text (c ∷ text) word =
    let rest = contains_text text word in has_prefix (c ∷ text) word || rest

-- `strings.TrimLeft(text, " \t")`
unfoldable pub trim_left : List ℕ → List ℕ
trim_left [] = []
trim_left (c ∷ text) =
    let rest = trim_left text in if c == b' ' || c == b'\t' then rest else c ∷ text

unfoldable pub is_one_of : List ℕ → List String → Bool
is_one_of text [] = false
is_one_of text (w ∷ ws) = let rest = is_one_of text ws in eq_text text (codes w) || rest

unfoldable pub contains_one_of : List ℕ → List String → Bool
unfolding contains_text
contains_one_of text [] = false
contains_one_of text (w ∷ ws) =
    let rest = contains_one_of text ws in contains_text text (codes w) || rest

-- `sensorShortIDReservedKeywords`
abbrev pub reserved_keywords : List String
reserved_keywords =
    "ALL" ∷ "STATUS" ∷ "DRONE" ∷ "SCAN" ∷ "TARGET" ∷ "DEVICE" ∷ "ATTACK" ∷ "GPS" ∷ "CAM" ∷ "TAMPER"
    ∷ "SETUP" ∷ "ERASE" ∷ "RTC" ∷ "CONFIG" ∷ "STOP" ∷ "REBOOT" ∷ "HB" ∷ "BASE" ∷ "RANDOM" ∷ "DEAUTH"
    ∷ "TRI" ∷ "BATT" ∷ "VIBR" ∷ "ANOM" ∷ "STARTUP" ∷ "NODE" ∷ []

-- The words of which one makes `isAHSensorOutput` true.
abbrev pub sensor_words : List String
sensor_words =
    "STATUS:" ∷ "DRONE:" ∷ "TARGET:" ∷ "DEVICE:" ∷ "ATTACK:" ∷ "ANOMALY-" ∷ "VIBRATION:"
    ∷ "BASELINE_STATUS:" ∷ "TRIANGULATE_" ∷ "CAM:" ∷ "CAM_FACE:" ∷ "CAM_PLATE:" ∷ "HEARTBEAT:"
    ∷ "NODE_HB" ∷ "STARTUP:" ∷ "TAMPER_" ∷ "_ACK:" ∷ "_ACK " ∷ "ANTIHUNTER" ∷ "T_D:" ∷ "T_F:"
    ∷ "T_C:" ∷ "_DONE:" ∷ "ERASE_" ∷ "IDENTITY:" ∷ "SETUP_MODE:" ∷ "BATTERY_SAVER" ∷ "RTC_SYNC:"
    ∷ []

-- `knownSensorTypes`
abbrev pub known_sensor_types : List String
known_sensor_types = "GATESENSOR" ∷ "GATE" ∷ "DOOR" ∷ "WINDOW" ∷ "MOTION" ∷ []

module _ (tools : TextTools) where
  unreserved : Option (List ℕ) → List ℕ
  unfolding is_one_of
  unreserved none = []
  unreserved (some id) = if is_one_of id reserved_keywords then [] else id

  unfoldable pub extract_sensor_short_id : List ℕ → List ℕ
  unfolding unreserved trim_left
  extract_sensor_short_id payload = unreserved (tools.find_short_id (trim_left payload))

  unfoldable pub is_ah_sensor_output : List ℕ → Bool
  unfolding has_prefix trim_left contains_one_of contains_text
  is_ah_sensor_output text =
      let upper = tools.to_upper text in
      if has_prefix (trim_left upper) (codes "@")
      then false
      else contains_one_of upper sensor_words
        || contains_text upper (codes "TEMP:") && contains_text upper (codes "GPS:")

  known_type : Option (List ℕ) → Bool
  unfolding is_one_of
  known_type none = false
  known_type (some kind) = is_one_of (tools.to_upper kind) known_sensor_types

  unfoldable pub is_gate_sensor_data : List ℕ → Bool
  unfolding contains_text known_type
  is_gate_sensor_data text =
      if contains_text (tools.to_upper text) (codes "STATUS:")
      then known_type (tools.find_type text)
      else false
