-- ===== src/Frontend/Cors.antt =====
-- The settings of the CORS middleware that app/frontend_api.py adds: its origins and its headers. The
-- middleware itself is FastAPI's.
use fleet_telemetry_system.Prelude.{
  String, true, some, List, [], ◌∷◌, ◌++◌, map, ◌≡◌, refl, ap, ◌∙◌, arith, All,
}
use fleet_telemetry_system.Prelude.Dict.{lookup}
use fleet_telemetry_system.Text.{Text, codes}
use fleet_telemetry_system.Text.Spaces.{strip, all_space}
use fleet_telemetry_system.Text.Split.{split, join, LacksComma, split-join}
use fleet_telemetry_system.Text.Padded.{strip-padded}
use fleet_telemetry_system.Config.{Environ, getenv}
use fleet_telemetry_system.Config.Required.{IsTrimmed}

-- The parts of a variable, without the white space around them.
unfoldable pub listed : Environ → String → Text → List Text
unfolding split strip getenv
listed env name default = map strip (split (getenv env name default))

unfoldable pub cors_origins : Environ → List Text
unfolding listed
cors_origins env = listed env "CORS_ALLOW_ORIGINS" (codes "http://localhost:8080")

unfoldable pub cors_headers : Environ → List Text
unfolding listed
cors_headers env = listed env "CORS_ALLOW_HEADERS" (codes "traceparent,content-type")

-- An item as an operator may write it, with white space around it.
pub record Written : Type 0 where
  pub before : Text
  pub item : Text
  pub after : Text

abbrev pub padded : Written → Text
padded w = w.before ++ (w.item ++ w.after)

pub record IsWritten (w : Written) : Type 0 where
  pub before : all_space w.before ≡ true
  pub after : all_space w.after ≡ true
  pub trimmed : IsTrimmed w.item
  pub whole : LacksComma w.item

LacksComma-append : (a b : Text) → LacksComma a → LacksComma b → LacksComma (a ++ b)
LacksComma-append [] b h k = k
LacksComma-append (c ∷ a) b h k = ground (arith, h, LacksComma-append a b)

LacksComma-space : (a : Text) → all_space a ≡ true → LacksComma a
unfolding all_space
LacksComma-space [] h = refl
LacksComma-space (c ∷ a) h = ground (arith, h, LacksComma-space a)

padded-LacksComma : (w : Written) → IsWritten w → LacksComma (padded w)
padded-LacksComma w h =
    LacksComma-append w.before _ (LacksComma-space w.before h.before)
      (LacksComma-append w.item w.after h.whole (LacksComma-space w.after h.after))

strip-written : (w : Written) → IsWritten w → strip (padded w) ≡ w.item
strip-written w h =
    strip-padded w.before w.item w.after h.before h.trimmed.filled h.trimmed.starts h.trimmed.ends
      h.after

all-LacksComma : (ws : List Written) → All IsWritten ws → All LacksComma (map padded ws)
all-LacksComma [] h = tt
all-LacksComma (w ∷ ws) (h, hs) = (padded-LacksComma w h, all-LacksComma ws hs)

all-strip :
    (ws : List Written) → All IsWritten ws → map strip (map padded ws) ≡ map (λ w. w.item) ws
all-strip [] h = refl
all-strip (w ∷ ws) (h, hs) = rw (strip-written w h, all-strip ws hs) refl

-- A variable that lists one or more items with commas between them, each with any white space around it,
-- is read as these items, in their order and with nothing around them. An item is not empty, and has
-- neither a comma nor white space at its ends.
pub listed-items :
    (env : Environ) (name : String) (default : Text) (w : Written) (ws : List Written)
    → lookup name env ≡ some (join (padded w) (map padded ws))
    → IsWritten w
    → All IsWritten ws
    → listed env name default ≡ w.item ∷ map (λ w. w.item) ws
unfolding listed getenv
listed-items env name default w ws set h hs = rw set (
    ap (map strip)
      (split-join (padded w) (map padded ws) (padded-LacksComma w h) (all-LacksComma ws hs))
    ∙ all-strip (w ∷ ws) (h, hs))
