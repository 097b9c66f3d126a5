-- ===== src/Meter/Usage.antt =====
-- What an upstream reports of its token usage: internal/meter/token.go. encoding/json is a parameter,
-- a function from the bytes to the fields that the source reads, or none if Unmarshal fails; a text
-- is a list of bytes. int64 sums wrap.
use unirate.Prelude.{Bool, false, ◌||◌, if◌then◌else◌, Option, none, some, List, [], ◌∷◌, ◌++◌}
use unirate.Prelude.Text.{Bytes, codes, ◌==◌, contains}
use unirate.Prelude.Int.{ℤ, pos, ltb_ℤ, ◌+ℤ◌, int64}

-- The `usage` object; an absent field is 0.
pub record UsagePayload : Type 0 where
  pub prompt_tokens : ℤ
  pub completion_tokens : ℤ
  pub total_tokens : ℤ

pub record UsageBreakdown : Type 0 where
  pub prompt : ℤ
  pub completion : ℤ
  pub total : ℤ
  pub split : Bool

abbrev pub is_pos : ℤ → Bool
is_pos z = ltb_ℤ (pos 0) z

-- `"usage"`, quotes included
abbrev pub usage_word : Bytes
usage_word = 0x22 ∷ codes "usage" ++ 0x22 ∷ []

breakdown_of : UsagePayload → Option UsageBreakdown
breakdown_of u =
    let split = is_pos u.prompt_tokens || is_pos u.completion_tokens in
    let out = λ (total : ℤ). some (record {
      prompt = u.prompt_tokens;
      completion = u.completion_tokens;
      total = total;
      split = split;
    }) in
    if is_pos u.total_tokens
    then out u.total_tokens
    else if split
    then out (int64 (u.prompt_tokens +ℤ u.completion_tokens))
    else none

usage_of : UsagePayload → Option ℤ
usage_of u =
    let sum = int64 (u.prompt_tokens +ℤ u.completion_tokens) in
    if is_pos u.total_tokens then some u.total_tokens else if is_pos sum then some sum else none

bind_usage {ℓ} : {A : Type ℓ} → Option UsagePayload → (UsagePayload → Option A) → Option A
bind_usage none f = none
bind_usage (some u) f = f u

module _ (unmarshal : Bytes → Option UsagePayload) where
  pub extract_usage_breakdown : Bytes → Option UsageBreakdown
  unfolding breakdown_of bind_usage
  extract_usage_breakdown body =
      if contains body usage_word then bind_usage (unmarshal body) breakdown_of else none

  pub extract_usage : Bytes → Option ℤ
  unfolding usage_of bind_usage
  extract_usage body =
      if contains body usage_word then bind_usage (unmarshal body) usage_of else none

-- What `choices[i]` gives: the two deltas and the text, in the order in which they are written.
pub record Choice : Type 0 where
  pub content : Bytes
  pub reasoning_content : Bytes
  pub text : Bytes

pub record SseDelta : Type 0 where
  pub choices : List Choice
  pub usage : Option UsagePayload

-- The builder's content; writing an empty string adds nothing.
written : List Choice → Bytes
written [] = []
written (c ∷ cs) = c.content ++ (c.reasoning_content ++ (c.text ++ written cs))

-- The exact usage of a data line: the total, or the sum if the total is 0.
delta_usage : Option UsagePayload → Option ℤ
delta_usage none = none
delta_usage (some u) =
    let n =
      if is_pos u.total_tokens || ltb_ℤ u.total_tokens (pos 0)
      then u.total_tokens
      else int64 (u.prompt_tokens +ℤ u.completion_tokens) in
    if is_pos n then some n else none

delta_of : Option SseDelta → Bytes × Option ℤ
unfolding written delta_usage
delta_of none = ([], none)
delta_of (some d) = (written d.choices, delta_usage d.usage)

starts_object : Bytes → Bool
starts_object [] = false
starts_object (b ∷ s) = (b ∷ []) == codes "{"

module _ (unmarshal : Bytes → Option SseDelta) where
  -- `trimmed` is bytes.TrimSpace(data).
  pub parse_sse_data : Bytes → Bytes × Option ℤ
  unfolding delta_of starts_object
  parse_sse_data trimmed =
      if trimmed == [] || trimmed == codes "[DONE]"
      then ([], none)
      else if starts_object trimmed
      then delta_of (unmarshal trimmed)
      else ([], none)

-- strconv.ParseInt is a parameter; the value is trimmed before it is parsed.
unfoldable pub parse_header_usage : (Bytes → Option ℤ) → (Bytes → Bytes) → Bytes → Option ℤ
parse_header_usage parse_int trim_space v =
    if v == [] then none else elim (parse_int (trim_space v)) [
      | none ↦ none
      | some n ↦ if is_pos n then some n else none
    ]
