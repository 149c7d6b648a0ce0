-- ===== src/Ui/Bounds.antt =====
-- The column that the bars show, under any keys.
use iftopcolor.Shared.{
  ◌<◌, Bool, true, false, List, [], ◌∷◌, arith, if◌then◌else◌, Option-cases, Bool-cases, inl, inr,
  ltb,
}
use iftopcolor.Options.{OptionPort}
use iftopcolor.Ui.Defs.{
  Ui, Outside, Key, call_tick, call_print, showhelp, showportstatus, with_options, sort_by, ui_key,
  ui_loop, prompt_filter, prompt_screen_filter, screen_filter_set, filter_text, key_q, key_n, key_N,
  key_h, key_b, key_B, key_s, key_d, key_S, key_D, key_p, key_P, key_o, key_1, key_2, key_3,
  key_source, key_dest, key_j, key_k, key_t, key_f, key_l, key_subshell, key_T, key_L, key_Z,
  key_clear, key_none, key_other,
}
use iftopcolor.Ui.Toggles.{showportstatus-options}

abbrev pub IsInRange : Ui → Type 0
IsInRange ui = ui.options.bar_interval < 3

on_either : (b : Bool) (x y : Ui) → IsInRange x → IsInRange y → IsInRange (if b then x else y)
on_either true x y v w = v
on_either false x y v w = w

ports-IsInRange :
    (env : Outside) (p : OptionPort) (ui : Ui)
    → IsInRange ui
    → IsInRange (showportstatus env (with_options (record ui.options { showports = p }) ui))
ports-IsInRange env p ui v =
    rw (showportstatus-options env (with_options (record ui.options { showports = p }) ui)) v

prompt_filter-IsInRange :
    (env : Outside) (ui : Ui) → IsInRange ui → IsInRange (prompt_filter env ui)
unfolding prompt_filter showhelp call_tick
prompt_filter-IsInRange env ui v = elim (Option-cases env.edline) [
  | inl e ↦ simp (prompt_filter, e) v
  | inr (s, e) ↦ elim (Option-cases (env.set_filter_code (filter_text s))) [
    | inl f ↦ simp (prompt_filter, e, f) v
    | inr (m, f) ↦ simp (prompt_filter, e, f) v
  ]
]

prompt_screen_filter-IsInRange :
    (env : Outside) (ui : Ui) → IsInRange ui → IsInRange (prompt_screen_filter env ui)
unfolding prompt_screen_filter screen_filter_set showhelp call_tick
prompt_screen_filter-IsInRange env ui v = elim (Option-cases env.edline) [
  | inl e ↦ simp (prompt_screen_filter, e) v
  | inr (s, e) ↦ elim (Bool-cases (env.regcomp s)) [
    | inl f ↦ simp (prompt_screen_filter, screen_filter_set, e, f) v
    | inr f ↦ simp (prompt_screen_filter, screen_filter_set, e, f) v
  ]
]

ui_key-IsInRange : (env : Outside) (k : Key) (ui : Ui) → IsInRange ui → IsInRange (ui_key env k ui)
unfolding ui_key showhelp call_tick call_print sort_by
ui_key-IsInRange env key_B ui v = omega arith
ui_key-IsInRange env key_S ui v = ports-IsInRange env _ ui v
ui_key-IsInRange env key_D ui v = ports-IsInRange env _ ui v
ui_key-IsInRange env key_p ui v = ports-IsInRange env _ ui v
ui_key-IsInRange env key_P ui v = on_either ui.options.paused _ _ v v
ui_key-IsInRange env key_o ui v = on_either ui.options.freezeorder _ _ v v
ui_key-IsInRange env key_k ui v = on_either (ltb 0 ui.options.screen_offset) _ _ v v
ui_key-IsInRange env key_f ui v = prompt_filter-IsInRange env ui v
ui_key-IsInRange env key_l ui v = prompt_screen_filter-IsInRange env ui v
ui_key-IsInRange env key_q ui v = v
ui_key-IsInRange env key_n ui v = v
ui_key-IsInRange env key_N ui v = v
ui_key-IsInRange env key_h ui v = v
ui_key-IsInRange env key_b ui v = v
ui_key-IsInRange env key_s ui v = v
ui_key-IsInRange env key_d ui v = v
ui_key-IsInRange env key_1 ui v = v
ui_key-IsInRange env key_2 ui v = v
ui_key-IsInRange env key_3 ui v = v
ui_key-IsInRange env key_source ui v = v
ui_key-IsInRange env key_dest ui v = v
ui_key-IsInRange env key_j ui v = v
ui_key-IsInRange env key_t ui v = v
ui_key-IsInRange env key_subshell ui v = v
ui_key-IsInRange env key_T ui v = v
ui_key-IsInRange env key_L ui v = v
ui_key-IsInRange env key_Z ui v = v
ui_key-IsInRange env key_clear ui v = v
ui_key-IsInRange env key_none ui v = v
ui_key-IsInRange env key_other ui v = v

-- Whatever keys come, with whatever happens outside, the bars keep showing one of the three
-- divisions, if they did: their index stays in the range of the arrays that it indexes.
pub ui_loop-IsInRange :
    (keys : List (Outside × Key)) (ui : Ui) → IsInRange ui → IsInRange (ui_loop keys ui)
unfolding ui_loop call_tick
ui_loop-IsInRange [] ui v = v
ui_loop-IsInRange ((env, key) ∷ keys) ui v =
    on_either ui.foad _ _ v
      (ui_loop-IsInRange keys (call_tick false (ui_key env key ui)) (ui_key-IsInRange env key ui v))
