-- ===== src/Install/Plugin.antt =====
-- cmd/baleen/install.go: the plugin after an update, and after a cleanup.
use baleen_engine.Base.{
  ◌<◌, Bool, false, not, ◌&&◌, Option, none, some, Text, text, ◌==◌, ==_self, ==_iff, if◌then◌else◌,
  text_eq, nat_eq, length, has_prefix, contains, ◌≡◌, arith, Bool-cases, inl, inr,
}
use baleen_engine.Base.Int.{ℤ}
use baleen_engine.Base.Map.{Map, lookup, lookup-insert}
use baleen_engine.Service.State.{absent, clear_state}
use baleen_engine.Install.{
  Copied, all_of_it, copy_file, looks_current, auto_update_cli_plugin, Machine, must_clean,
  self_cleanup,
}

-- A plugin that is not empty and has the size of the program stays as it is, whatever is in it: an
-- update of the program to one of the same size does not reach the plugin.
pub same_size_stays :
    (windows : Bool) (copied : Copied) (exe target new old : Text) (files : Map Text Text)
    → lookup exe files ≡ some new
    → lookup target files ≡ some old
    → 0 < length old
    → length new ≡ length old
    → auto_update_cli_plugin windows copied exe target files ≡ files
unfolding auto_update_cli_plugin looks_current
same_size_stays windows copied exe target new old files there held full same =
    ground (arith, there, held, full, same)

-- Where the copy is complete and the sizes differ, the plugin is the program afterwards, and the next
-- update leaves it; this is outside of Windows, where the old plugin is first moved away.
pub update_settles :
    (copied : Copied) (exe target new : Text) (files : Map Text Text)
    → (exe == target) ≡ false
    → lookup exe files ≡ some new
    → 0 < length new
    → looks_current (some new) (lookup target files) ≡ false
    → let once = auto_update_cli_plugin false all_of_it exe target files in
      (lookup target once ≡ some new) × (auto_update_cli_plugin false copied exe target once ≡ once)
unfolding auto_update_cli_plugin looks_current copy_file
update_settles copied exe target new files apart there full differs =
    let installed = lookup-insert target target new files in
    let kept = lookup-insert target exe new files in
    (
      ground (arith, apart, there, differs, installed, ==_self target),
      ground (
        arith,
        apart,
        there,
        differs,
        installed,
        kept,
        full,
        ==_self target,
        ==_iff exe target,
        ==_iff target exe,
      ),
    )

-- The program ends itself and removes its plugin only if it runs as the plugin and docker has
-- answered with a list of extensions that does not name it; else nothing changes. When it does, there
-- is no state file any more.
pub cleanup_only_if_gone :
    (windows : Bool) (exe plugin_dir target : Text) (extensions : Option Text) (lives : ℤ → Bool)
    (m : Machine)
    → let (after, ends) = self_cleanup windows exe plugin_dir target extensions lives m in
      (ends ≡ (
        has_prefix exe plugin_dir
        && (elim extensions [ none ↦ false | some out ↦ not (contains out (text "baleen")) ])))
      × ((if ends then m else after) ≡ m)
      × ((if ends then after.service.current else absent) ≡ absent)
unfolding self_cleanup must_clean clear_state
cleanup_only_if_gone windows exe plugin_dir target extensions lives m =
    elim (Bool-cases (must_clean exe plugin_dir extensions)) [
      | inl gone ↦ (ground (arith, gone), ground (arith, gone), ground (arith, gone))
      | inr stays ↦ (ground (arith, stays), ground (arith, stays), ground (arith, stays))
    ]
