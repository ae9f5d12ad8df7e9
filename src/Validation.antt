-- ===== src/Validation.antt =====
-- internal/policy/compiler/validation.go: the checks on a policy definition before it is compiled.
--
-- `none` is Go's nil error. Printing an index and testing a JSON number for being positive are the
-- parameters `Format`. The set `ruleIDs` is the list of the IDs put into it.
pub mod Shapes
pub mod Texts
pub mod Conditions
pub mod Fitting
pub mod Rules
pub mod Tests
use mcp_proxy.Prelude.{
  Bool, List, Option, String, [], eqb, false, if◌then◌else◌, leb, none, not, some, true, ℕ, ◌&&◌,
  ◌+◌, ◌==◌, ◌||◌, ◌∷◌,
}
use Prim.Native.Char.{code as code_point}
use Prim.Native.String.{◌++◌ as ◌++ˢ◌}
use mcp_proxy.Prelude.Int.{ℤ}
use mcp_proxy.Json.{
  Fields, Items, Value, arr, bool, cons, end, field, get_field, nil, null, number, obj, str,
}
use mcp_proxy.Parser.{all_chars, is_letter}

pub record Format : Type 0 where
  pub decimal : ℕ → String
  pub is_positive : String → Bool

pub record RuleDefinition : Type 0 where
  pub id : String
  pub rule_type : String
  pub priority : ℤ
  pub enabled : Option Bool
  pub conditions : Fields
  pub action : String
  pub message : String

unfoldable pub is_enabled : RuleDefinition → Bool
is_enabled rule = elim rule.enabled [ none ↦ true | some b ↦ b ]

pub record DefaultsConfig : Type 0 where
  pub action : String
  pub rate_limit : ℤ

pub record PolicyDefinition : Type 0 where
  pub schema : String
  pub version : String
  pub name : String
  pub description : String
  pub rules : List RuleDefinition
  pub defaults : DefaultsConfig

infixr 5 ◌then_check◌
-- The next check is made if this one passes.
abbrev pub ◌then_check◌ : Option String → Option String → Option String
none then_check next = next
some e then_check next = some e

-- fmt.Errorf("%s: %w", …)
abbrev pub wrap : String → Option String → Option String
wrap text none = none
wrap text (some e) = some (text ++ˢ ": " ++ˢ e)

-- [a-zA-Z0-9_-]
unfoldable pub is_identifier_char : ℕ → Bool
unfolding is_letter
is_identifier_char c = is_letter c || leb b'0' c && leb c b'9' || eqb c b'_' || eqb c b'-'

unfoldable pub is_valid_identifier : String → Bool
unfolding is_identifier_char
is_valid_identifier String.[] = false
is_valid_identifier (String.◌∷◌ c s) = is_letter (code_point c) && all_chars is_identifier_char s

unfoldable pub is_in : List String → String → Bool
is_in [] s = false
is_in (t ∷ ts) s = t == s || is_in ts s

abbrev pub valid_operators : List String
valid_operators =
    "eq" ∷ "ne" ∷ "gt" ∷ "gte" ∷ "lt" ∷ "lte" ∷ "contains" ∷ "startswith" ∷ "endswith" ∷ "matches"
    ∷ "in" ∷ "not_in" ∷ []

unfoldable pub is_valid_operator : String → Bool
unfolding is_in
is_valid_operator op = is_in valid_operators op

unfoldable pub check_op : Option Value → Option String
unfolding is_valid_operator
check_op none = none
check_op (some (str op)) = if is_valid_operator op then none else some ("invalid operator: " ++ˢ op)
check_op (some _) = some "'op' must be a string"

unfoldable pub check_field : Option Value → Fields → Option String
unfolding check_op
check_field none expr = none
check_field (some (str _)) expr = check_op (get_field "op" expr)
check_field (some _) expr = some "'field' must be a string"

-- validateExpression, with the body written out at both of its recursive calls. The member that
-- counts is the one that get_field finds.
unfoldable mutual
  unfolding check_field

  pub validate_list : Format → String → Fields → Option String
  validate_list fmt key end = none
  validate_list fmt key (field k v fs) =
      let rest = validate_list fmt key fs in
      let here = validate_array fmt key v in if k == key then here else rest

  pub validate_array : Format → String → Value → Option String
  validate_array fmt key (arr xs) = validate_items fmt key 0 xs
  validate_array fmt key v = some ("'" ++ˢ key ++ˢ "' must be an array")

  pub validate_items : Format → String → ℕ → Items → Option String
  validate_items fmt key i nil = none
  validate_items fmt key i (cons v xs) =
      validate_item fmt key i v then_check validate_items fmt key (i + 1) xs

  pub validate_item : Format → String → ℕ → Value → Option String
  validate_item fmt key i (obj fs) = wrap (key ++ˢ "[" ++ˢ fmt.decimal i ++ˢ "]") (
      validate_list fmt "all" fs
      then_check validate_list fmt "any" fs
      then_check validate_not fmt fs
      then_check check_field (get_field "field" fs) fs)
  validate_item fmt key i v =
      some ("'" ++ˢ key ++ˢ "[" ++ˢ fmt.decimal i ++ˢ "]' must be an object")

  pub validate_not : Format → Fields → Option String
  validate_not fmt end = none
  validate_not fmt (field k v fs) =
      let rest = validate_not fmt fs in
      let here = validate_negated fmt v in if k == "not" then here else rest

  pub validate_negated : Format → Value → Option String
  validate_negated fmt (obj fs) = wrap "not" (
      validate_list fmt "all" fs
      then_check validate_list fmt "any" fs
      then_check validate_not fmt fs
      then_check check_field (get_field "field" fs) fs)
  validate_negated fmt v = some "'not' must be an object"

unfoldable pub validate_expression : Format → Fields → Option String
unfolding validate_list check_field
validate_expression fmt expr =
    validate_list fmt "all" expr
    then_check validate_list fmt "any" expr
    then_check validate_not fmt expr
    then_check check_field (get_field "field" expr) expr

unfoldable pub is_str : Value → Bool
is_str (str _) = true
is_str _ = false

-- A condition that must be there and must be a text.
unfoldable pub check_text : String → String → Option Value → Option String
unfolding is_str
check_text kind key none = some (kind ++ˢ " rule requires '" ++ˢ key ++ˢ "' condition")
check_text kind key (some v) =
    if is_str v then none else some ("'" ++ˢ key ++ˢ "' must be a string")

unfoldable pub validate_capability_rule : Fields → Option String
unfolding check_text
validate_capability_rule conditions =
    check_text "capability" "tool" (get_field "tool" conditions)
    then_check check_text "capability" "requires_capability"
        (get_field "requires_capability" conditions)

unfoldable pub check_match_type : Option Value → Option String
unfolding is_in
check_match_type none = some "blocklist rule requires 'match_type' condition"
check_match_type (some (str mt)) =
    if is_in ("tool" ∷ "agent" ∷ "did" ∷ []) mt
    then none
    else some "'match_type' must be one of: tool, agent, did"
check_match_type (some _) = some "'match_type' must be a string"

unfoldable pub check_items : Format → ℕ → Items → Option String
unfolding is_str
check_items fmt i nil = none
check_items fmt i (cons v xs) =
    let rest = check_items fmt (i + 1) xs in
    if is_str v then rest else some ("'values[" ++ˢ fmt.decimal i ++ˢ "]' must be a string")

unfoldable pub check_values : Format → Option Value → Option String
unfolding check_items
check_values fmt none = some "blocklist rule requires 'values' condition"
check_values fmt (some (arr nil)) = some "'values' must not be empty"
check_values fmt (some (arr (cons v xs))) = check_items fmt 0 (cons v xs)
check_values fmt (some _) = some "'values' must be an array"

unfoldable pub validate_blocklist_rule : Format → Fields → Option String
unfolding check_match_type check_values
validate_blocklist_rule fmt conditions =
    check_match_type (get_field "match_type" conditions)
    then_check check_values fmt (get_field "values" conditions)

unfoldable pub check_limit : Format → Option Value → Option String
check_limit fmt none = some "rate_limit rule requires 'limit' condition"
check_limit fmt (some (number l)) =
    if fmt.is_positive l then none else some "'limit' must be positive"
check_limit fmt (some _) = some "'limit' must be a number"

unfoldable pub check_window : Option Value → Option String
unfolding is_in
check_window none = none
check_window (some (str w)) =
    if is_in ("session" ∷ "minute" ∷ "hour" ∷ []) w
    then none
    else some "'window' must be one of: session, minute, hour"
check_window (some _) = some "'window' must be a string"

unfoldable pub validate_rate_limit_rule : Format → Fields → Option String
unfolding check_limit check_window
validate_rate_limit_rule fmt conditions =
    check_limit fmt (get_field "limit" conditions)
    then_check check_window (get_field "window" conditions)

unfoldable pub validate_custom_rule : Format → Fields → Option String
unfolding validate_expression
validate_custom_rule fmt end = some "custom rule requires at least one condition"
validate_custom_rule fmt (field k v fs) = validate_expression fmt (field k v fs)

unfoldable pub validate_conditions : Format → String → Fields → Option String
unfolding validate_capability_rule validate_blocklist_rule validate_rate_limit_rule
    validate_custom_rule
validate_conditions fmt rule_type conditions =
    if rule_type == ""
    then some "type is required"
    else if rule_type == "capability"
    then validate_capability_rule conditions
    else if rule_type == "blocklist"
    then validate_blocklist_rule fmt conditions
    else if rule_type == "rate_limit"
    then validate_rate_limit_rule fmt conditions
    else if rule_type == "custom"
    then validate_custom_rule fmt conditions
    else some ("unknown rule type: " ++ˢ rule_type)

-- The checks of validateRule up to the entry of the ID into `ruleIDs`.
unfoldable pub validate_id : List String → String → Option String
unfolding is_valid_identifier is_in
validate_id rule_ids id =
    if id == ""
    then some "id is required"
    else if not (is_valid_identifier id)
    then some ("id must be a valid identifier: " ++ˢ id)
    else if is_in rule_ids id
    then some ("duplicate rule id: " ++ˢ id)
    else none

unfoldable pub validate_rule : Format → List String → RuleDefinition → Option String
unfolding validate_id validate_conditions
validate_rule fmt rule_ids rule =
    validate_id rule_ids rule.id then_check validate_conditions fmt rule.rule_type rule.conditions

-- The loop over the rules. It ends at the first error, so the IDs entered are those before.
unfoldable pub validate_rules : Format → ℕ → List String → List RuleDefinition → Option String
unfolding validate_rule
validate_rules fmt i rule_ids [] = none
validate_rules fmt i rule_ids (rule ∷ rules) =
    wrap ("rule[" ++ˢ fmt.decimal i ++ˢ "]") (validate_rule fmt rule_ids rule)
    then_check validate_rules fmt (i + 1) (rule.id ∷ rule_ids) rules

unfoldable pub check_rules : Format → List RuleDefinition → Option String
unfolding validate_rules
check_rules fmt [] = some "at least one rule is required"
check_rules fmt (rule ∷ rules) = validate_rules fmt 0 [] (rule ∷ rules)

unfoldable pub validate : Format → PolicyDefinition → Option String
unfolding is_valid_identifier check_rules
validate fmt def =
    if def.version == ""
    then some "version is required"
    else if def.name == ""
    then some "name is required"
    else if not (is_valid_identifier def.name)
    then some ("name must be a valid identifier (alphanumeric and hyphens): " ++ˢ def.name)
    else check_rules fmt def.rules
