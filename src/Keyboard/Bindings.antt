-- ===== src/Keyboard/Bindings.antt =====
-- src/ui/keyboard/binding.rs: which action a combination of keys stands for in a scope.
use photo_viewer.Base.{Bool, true, false, ◌&&◌, ◌||◌, not, Option, none, some, if◌then◌else◌}
use photo_viewer.Keyboard.{
  cancel_or_close, navigate_back, browse_up, browse_down, browse_left, browse_right,
  activate_focused, toggle_selection, select_all, search_photos, open_settings, show_shortcuts,
  delete_photos, viewer_previous, viewer_next, viewer_zoom_in, viewer_zoom_out, viewer_zoom_reset,
  viewer_rotate_left, viewer_rotate_right, viewer_immersive, viewer_fullscreen_preview,
  viewer_toggle_details, viewer_toggle_edit, viewer_toggle_favorite, viewer_toggle_playback,
  text_input, modal, editor, viewer, browsing, global, escape, key_left, kp_left, key_right,
  kp_right, key_up, kp_up, key_down, kp_down, return_key, kp_enter, space, kp_space, delete_key,
  comma, f1, slash, question, lower_a, upper_a, lower_f, upper_f, lower_r, upper_r, lower_i,
  lower_e, lower_h, plus, kp_add, equal, minus, kp_subtract, digit_0, kp_0, named, NamedKey, Key,
  KeyboardAction, KeyboardScope, key_eq,
}

-- `gdk::ModifierType`, as far as it is read.
pub record ModifierType : Type 0 where
  pub control_mask : Bool
  pub shift_mask : Bool
  pub alt_mask : Bool
  pub meta_mask : Bool

pub record KeyCombo : Type 0 where
  pub key : Key
  pub ctrl : Bool
  pub shift : Bool
  pub alt : Bool

-- `KeyCombo::new`
abbrev pub new_combo : Key → ModifierType → KeyCombo
new_combo key state = record {
  key = key;
  ctrl = state.control_mask;
  shift = state.shift_mask;
  alt = state.alt_mask || state.meta_mask;
}

abbrev pub plain : NamedKey → KeyCombo
plain key = record { key = named key; ctrl = false; shift = false; alt = false }

abbrev pub control_mask : ModifierType
control_mask = record {
  control_mask = true;
  shift_mask = false;
  alt_mask = false;
  meta_mask = false;
}

abbrev pub same : Bool → Bool → Bool
same true b = b
same false b = not b

-- The derived equality of `KeyCombo`.
abbrev pub combo_eq : KeyCombo → KeyCombo → Bool
combo_eq c d = key_eq c.key d.key && same c.ctrl d.ctrl && same c.shift d.shift && same c.alt d.alt

abbrev pub is_key : NamedKey → KeyCombo → Bool
is_key key c = key_eq c.key (named key)

abbrev pub is_plain : NamedKey → KeyCombo → Bool
is_plain key c = combo_eq c (plain key)

unfoldable pub global_binding : KeyCombo → Option KeyboardAction
global_binding c =
    if is_plain escape c
    then some cancel_or_close
    else if (is_key key_left c || is_key kp_left c) && c.alt && not c.ctrl && not c.shift
    then some navigate_back
    else if (is_key lower_f c && c.ctrl && not c.alt && not c.shift)
        || (is_key upper_f c && c.ctrl && not c.alt && c.shift)
    then some search_photos
    else if is_key comma c && c.ctrl && not c.alt && not c.shift
    then some open_settings
    else if is_plain f1 c
        || combo_eq c (new_combo (named slash) control_mask)
        || combo_eq c (new_combo (named question) control_mask)
    then some show_shortcuts
    else none

unfoldable pub browsing_binding : KeyCombo → Option KeyboardAction
browsing_binding c =
    if is_plain key_up c || is_plain kp_up c
    then some browse_up
    else if is_plain key_down c || is_plain kp_down c
    then some browse_down
    else if is_plain key_left c || is_plain kp_left c
    then some browse_left
    else if is_plain key_right c || is_plain kp_right c
    then some browse_right
    else if is_plain return_key c || is_plain kp_enter c
    then some activate_focused
    else if is_plain space c || is_plain kp_space c
    then some toggle_selection
    else if (is_key lower_a c && c.ctrl && not c.alt && not c.shift)
        || (is_key upper_a c && c.ctrl && not c.alt && c.shift)
    then some select_all
    else if is_plain delete_key c
    then some delete_photos
    else none

unfoldable pub viewer_binding : KeyCombo → Option KeyboardAction
viewer_binding c =
    if is_plain key_left c || is_plain kp_left c
    then some viewer_previous
    else if is_plain key_right c || is_plain kp_right c
    then some viewer_next
    else if is_plain escape c
    then some cancel_or_close
    else if is_plain space c || is_plain kp_space c
    then some viewer_toggle_playback
    else if (is_key plus c || is_key kp_add c || is_key equal c) && not c.ctrl && not c.alt
    then some viewer_zoom_in
    else if is_plain minus c || is_plain kp_subtract c
    then some viewer_zoom_out
    else if is_plain digit_0 c || is_plain kp_0 c
    then some viewer_zoom_reset
    else if is_plain lower_r c
    then some viewer_rotate_right
    else if (is_key upper_r c || is_key lower_r c) && not c.ctrl && not c.alt && c.shift
    then some viewer_rotate_left
    else if is_plain lower_f c
    then some viewer_immersive
    else if (is_key upper_f c || is_key lower_f c) && not c.ctrl && not c.alt && c.shift
    then some viewer_fullscreen_preview
    else if is_plain lower_i c
    then some viewer_toggle_details
    else if is_plain lower_e c
    then some viewer_toggle_edit
    else if is_plain lower_h c
    then some viewer_toggle_favorite
    else if is_plain delete_key c
    then some delete_photos
    else none

unfoldable pub scoped_binding : KeyboardScope → KeyCombo → Option KeyboardAction
scoped_binding text_input c = none
scoped_binding modal c = if is_plain escape c then some cancel_or_close else none
scoped_binding editor c = if is_plain escape c then some cancel_or_close else none
scoped_binding viewer c = viewer_binding c
scoped_binding browsing c = browsing_binding c
scoped_binding global c = global_binding c

-- Whether what a scope does not bind is looked up among the global bindings.
abbrev pub falls_back : KeyboardScope → Bool
falls_back text_input = false
falls_back modal = false
falls_back editor = false
falls_back viewer = true
falls_back browsing = true
falls_back global = false

abbrev pub or_else : Option KeyboardAction → Option KeyboardAction → Option KeyboardAction
or_else none later = later
or_else (some action) later = some action

unfoldable pub resolve_binding : KeyboardScope → KeyCombo → Option KeyboardAction
resolve_binding scope c =
    or_else (scoped_binding scope c) (if falls_back scope then scoped_binding global c else none)
