-- ===== src/Kparam.antt =====
-- hal/kparam/kparam.c: the parser of the command line of the kernel, and the lookup of a parameter,
-- on the memory of Bytes.antt.
pub mod Word
pub mod Round
pub mod Value
mod Tests
use sandnix.Prelude.{
  ℕ, zero, suc, ◌+◌, ◌-◌, Bool, true, false, not, ◌==◌, ◌&&◌, ◌||◌, ltb, Option, none, some, List,
  [], ◌∷◌, ◌++◌, if◌then◌else◌,
}
use sandnix.Bytes.{Bytes}
use sandnix.Strings.{strncpy}
use sandnix.Length.{strlen}

-- The addresses that the heap is going to return, the calls of core_rtl_map_set so far, each with its
-- key and its value, oldest first, and what the coming calls of it are going to return.
pub record State : Type 0 where
  pub memory : Bytes
  pub supply : List ℕ
  pub params : List (ℕ × ℕ)
  pub results : List ℕ

-- ' ', '\t' and '\n'.
abbrev pub is_space : ℕ → Bool
is_space ch = ch == 32 || ch == 9 || ch == 10

pub jump_space : (fuel p : ℕ) → Bytes → Option ℕ
jump_space zero p m = none
jump_space (suc fuel) p m =
    let rest = jump_space fuel (p + 1) m in if is_space (m p) then rest else some p

-- '=', ' ' and '\t'.
abbrev pub ends_word : ℕ → Bool
ends_word ch = ch == 61 || ch == 32 || ch == 9

-- The loop of get_word; a quote, '"', does not move the pointer.
pub word_loop : (fuel p : ℕ) (quote_flag slash_flag : Bool) → Bytes → Option ℕ
word_loop zero p quote_flag slash_flag m = none
word_loop (suc fuel) p quote_flag slash_flag m =
    let skipped = word_loop fuel (p + 1) quote_flag slash_flag m in
    let quoted = word_loop fuel p (not quote_flag) false m in
    let moved_on = word_loop fuel (p + 1) quote_flag false m in
    if m p == 0
    then some p
    else if slash_flag
    then skipped
    else if m p == 34
    then quoted
    else if ends_word (m p) && not quote_flag
    then some p
    else moved_on

-- The word from `p_start` to `p` is copied to the heap. Without memory the kernel panics: `none`.
pub copy_word : (p_start p : ℕ) → State → Option (ℕ × (ℕ × State))
copy_word p_start p s = let len = p - p_start + 1 in copy_to len s.supply
  where
    copy_to : ℕ → List ℕ → Option (ℕ × (ℕ × State))
    copy_to len [] = none
    copy_to len (p_ret ∷ rest) =
        if p_ret == 0
        then none
        else some (
          p_ret,
          (p, record s { memory = strncpy (len - 1) p_ret p_start s.memory; supply = rest }),
        )

abbrev pub word_found : (p_start : ℕ) → State → Option ℕ → Option (ℕ × (ℕ × State))
word_found p_start s none = none
word_found p_start s (some p) = copy_word p_start p s

-- The copy, the pointer behind the word, and the state.
pub get_word : (fuel p : ℕ) → State → Option (ℕ × (ℕ × State))
get_word fuel p s = word_found p s (word_loop fuel p false false s.memory)

-- The call of core_rtl_map_set. Where it returns NULL the kernel panics: `none`.
abbrev pub add_param : (p key value : ℕ) → State → List ℕ → Option (ℕ × State)
add_param p key value s [] = none
add_param p key value s (result ∷ rest) =
    if result == 0
    then none
    else some (p, record s { params = s.params ++ (key, value) ∷ []; results = rest })

-- The value behind '=', or the empty string at `empty`.
pub get_param_value : (fuel empty p : ℕ) → State → Option (ℕ × (ℕ × State))
get_param_value fuel empty p s =
    if s.memory p == 61
    then elim (jump_space fuel (p + 1) s.memory) [ none ↦ none | some q ↦ get_word fuel q s ]
    else some (empty, (p, s))

abbrev pub enter : (key : ℕ) → Option (ℕ × (ℕ × State)) → Option (ℕ × State)
enter key none = none
enter key (some (value, (p, s))) = add_param (p + 1) key value s s.results

abbrev pub behind_key : (fuel empty key : ℕ) → State → Option ℕ → Option (ℕ × State)
behind_key fuel empty key s none = none
behind_key fuel empty key s (some p) = enter key (get_param_value fuel empty p s)

abbrev pub with_key : (fuel empty : ℕ) → Option (ℕ × (ℕ × State)) → Option (ℕ × State)
with_key fuel empty none = none
with_key fuel empty (some (key, (p, s))) = behind_key fuel empty key s (jump_space fuel p s.memory)

abbrev pub at_key : (fuel empty : ℕ) → State → Option ℕ → Option (ℕ × State)
at_key fuel empty s none = none
at_key fuel empty s (some p) = with_key fuel empty (get_word fuel p s)

-- A round of the loop of hal_kparam_init, its `p++` included.
pub parse_round : (fuel empty p : ℕ) → State → Option (ℕ × State)
parse_round fuel empty p s = at_key fuel empty s (jump_space fuel p s.memory)

abbrev pub parse_next : ((p : ℕ) → State → Option State) → Option (ℕ × State) → Option State
parse_next next none = none
parse_next next (some (p, s)) = next p s

pub parse : (rounds fuel empty p : ℕ) → State → Option State
parse zero fuel empty p s = none
parse (suc rounds) fuel empty p s =
    let rest = parse_next (λ p s. parse rounds fuel empty p s) (parse_round fuel empty p s) in
    if s.memory p == 0 then some s else rest

pub data Status : Type 0 where
  enoent : Status
  eoverflow : Status
  esuccess : Status

-- hal_kparam_get_value, with what core_rtl_map_get returns.
pub get_value : (fuel p_ret buf size : ℕ) → Bytes → Option (Status × Bytes)
get_value fuel p_ret buf size m =
    let copied = strncpy size buf p_ret m in
    if p_ret == 0 then some (enoent, m) else elim (strlen fuel p_ret copied) [
      | none ↦ none
      | some len ↦ some (if ltb size (len + 1) then eoverflow else esuccess, copied)
    ]
