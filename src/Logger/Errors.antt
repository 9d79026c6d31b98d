-- ===== src/Logger/Errors.antt =====
-- logger/error_type.h and logger.cpp: `LogError` and `LogFinalGameParams`.
use Prim.Native.Char.{code}
use Prim.Native.String.{String}
use codecharacter_simulator.Prelude.{
  ℕ, suc, Bool, true, false, ◌&&◌, ◌==◌, List, [], ◌∷◌, ◌++◌, Option, none, some, if◌then◌else◌,
}
use codecharacter_simulator.Players.{PlayerId, PerPlayer, at, put}
use codecharacter_simulator.Syncer.Commands.{ErrorType}
use codecharacter_simulator.Logger.Messages.{Text}

abbrev pub codes : String → Text
codes String.[] = []
codes (String.◌∷◌ c s) = code c ∷ codes s

-- The vector `ErrorTypeName`.
unfoldable pub error_type_name : ErrorType → Text
error_type_name ErrorType.no_multiple_soldier_tasks = codes "NO_MULTIPLE_SOLDIER_TASKS"
error_type_name ErrorType.no_multiple_tower_tasks = codes "NO_MULTIPLE_TOWER_TASKS"
error_type_name ErrorType.no_alter_actor_id = codes "NO_ALTER_ACTOR_ID"
error_type_name ErrorType.no_action_by_dead_soldier = codes "NO_ACTION_BY_DEAD_SOLDIER"
error_type_name ErrorType.no_attack_base_tower = codes "NO_ATTACK_BASE_TOWER"
error_type_name ErrorType.invalid_position = codes "INVALID_POSITION"
error_type_name ErrorType.no_attack_self_tower = codes "NO_ATTACK_SELF_TOWER"
error_type_name ErrorType.no_attack_self_soldier = codes "NO_ATTACK_SELF_SOLDIER"
error_type_name ErrorType.no_attack_dead_soldier = codes "NO_ATTACK_DEAD_SOLDIER"
error_type_name ErrorType.invalid_territory = codes "INVALID_TERRITORY"
error_type_name ErrorType.insufficient_funds = codes "INSUFFICIENT_FUNDS"
error_type_name ErrorType.no_more_upgrades = codes "NO_MORE_UPGRADES"
error_type_name ErrorType.no_suicide_base_tower = codes "NO_SUICIDE_BASE_TOWER"
error_type_name ErrorType.no_more_towers = codes "NO_MORE_TOWERS"
error_type_name ErrorType.no_attack_razed_tower = codes "NO_ATTACK_RAZED_TOWER"
error_type_name ErrorType.no_attack_immune_soldier = codes "NO_ATTACK_IMMUNE_SOLDIER"

-- The fields of `Logger` that hold errors; `error_map` maps texts to codes.
pub record ErrorLog : Type 0 where
  pub error_map : List (Text × ℕ)
  pub current_error_code : ℕ
  pub errors : PerPlayer (List ℕ)

abbrev pub text_eqb : Text → Text → Bool
text_eqb [] [] = true
text_eqb (x ∷ xs) (y ∷ ys) = (x == y) && text_eqb xs ys
text_eqb _ _ = false

-- `error_map.find`.
unfoldable pub find_text : List (Text × ℕ) → Text → Option ℕ
find_text [] t = none
find_text (e ∷ es) t = if text_eqb e.0 t then some e.1 else find_text es t

unfoldable pub full_message : ErrorType → Text → Text
full_message kind message = error_type_name kind ++ (codes ": " ++ message)

-- The code of a text, and the map and the counter after a new entry if it has none.
abbrev pub encode : ErrorLog → Text → Option ℕ → ErrorLog × ℕ
encode l t (some c) = (l, c)
encode l t none = (
  record l {
    error_map = l.error_map ++ ((t, l.current_error_code) ∷ []);
    current_error_code = suc l.current_error_code;
  },
  l.current_error_code,
)

abbrev pub push_error : PlayerId → ErrorLog × ℕ → ErrorLog
push_error p (l, c) = record l { errors = put l.errors p (at l.errors p ++ (c ∷ [])) }

unfoldable pub log_error : ErrorLog → PlayerId → ErrorType → Text → ErrorLog
log_error l p kind message =
    let t = full_message kind message in push_error p (encode l t (find_text l.error_map t))

-- `m[c] = t` on a map from codes to texts.
unfoldable pub assign : ℕ → Text → List (ℕ × Text) → List (ℕ × Text)
assign c t [] = (c, t) ∷ []
assign c t (e ∷ es) = if e.0 == c then (c, t) ∷ es else e ∷ assign c t es

unfoldable pub find_code : List (ℕ × Text) → ℕ → Option Text
find_code [] c = none
find_code (e ∷ es) c = if e.0 == c then some e.1 else find_code es c

-- `LogFinalGameParams`: the map the other way round.
unfoldable pub log_final_game_params : List (Text × ℕ) → List (ℕ × Text) → List (ℕ × Text)
log_final_game_params [] m = m
log_final_game_params (e ∷ es) m = log_final_game_params es (assign e.1 e.0 m)
