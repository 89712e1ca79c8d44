-- ===== src/Api/Gc/Agrees.antt =====
-- internal/api/handlers/gc_handler.go and internal/cli/gc_cli.go: one collection, asked for twice.
use baleen_engine.Base.{
  ℕ, suc, ◌^◌, ◌<◌, Bool, true, false, Option, some, List, [], ◌∷◌, ◌++◌, Text, text, ◌==◌, text_eq,
  text_beq, ◌≡◌, refl, arith, ap, sym, ◌∙◌, inl, inr, Result-cases,
}
use baleen_engine.Base.Int.{pos}
use baleen_engine.Base.Decimal.{decimal, atoi-decimal, decimal-ne}
use baleen_engine.Ledger.Interface.{Bucket}
use baleen_engine.Ledger.{Stored, delete_commit}
use baleen_engine.Cli.Gc.{
  Report, failed, Held, sweep, gc_all, gc_days, gc_old, gc_by_hash, gc_command, handle_gc,
  without_flag, days_of,
}
use baleen_engine.Api.Gc.{
  GcRequest, GcResponse, error, done, gc_delete_physical, days_or_week, gc_mode_all, gc_mode_old,
  gc_mode_hash, gc,
}

-- The collections that both interfaces can ask for.
pub data Collection : Type 0 where
  everything : Collection
  -- one day more than the number
  older : ℕ → Collection
  by_hash : Text → Collection

unfoldable pub words_of : Collection → List Text
words_of everything = text "all" ∷ []
words_of (older n) = text "old" ∷ (decimal (suc n) ∷ [])
words_of (by_hash hash) = hash ∷ []

unfoldable pub command_of : Collection → Bool → List Text
unfolding words_of
command_of c true = text "gc" ∷ (words_of c ++ text "-rm" ∷ [])
command_of c false = text "gc" ∷ words_of c

unfoldable pub request_of : Collection → Bool → GcRequest
request_of everything rm = record { mode = text "all"; days = pos 0; hash = []; remove_cache = rm }
request_of (older n) rm = record {
  mode = text "old";
  days = pos (suc n);
  hash = [];
  remove_cache = rm;
}
request_of (by_hash hash) rm = record {
  mode = text "hash";
  days = pos 0;
  hash = hash;
  remove_cache = rm;
}

-- A number of days is one that Atoi reads; a hash is no word of the command.
abbrev pub IsPlain : Collection → Type 0
IsPlain everything = Unit
IsPlain (older n) = suc n < 2 ^ 63
IsPlain (by_hash hash) =
    ((hash == text "all") ≡ false)
    × ((hash == text "old") ≡ false)
    × ((hash == text "-rm") ≡ false)
    × ((hash == []) ≡ false)

-- The handler's answer for what the command prints.
unfoldable pub response_of : Report → GcResponse
response_of (failed e) = error (failed e)
response_of report = done report

decimal_plain : (n : ℕ) → ((decimal n == text "-rm") ≡ false)
decimal_plain n = decimal-ne n b'-' (text "rm") refl

flag_command :
    (c : Collection) (rm : Bool)
    → IsPlain c
    → without_flag (command_of c rm) ≡ (text "gc" ∷ words_of c, rm)
unfolding without_flag command_of words_of text_beq
flag_command everything true p = refl
flag_command everything false p = refl
flag_command (older n) true p = refl
flag_command (older n) false p = ground (arith, decimal_plain (suc n))
flag_command (by_hash hash) true p = refl
flag_command (by_hash hash) false p = ground (arith, p)

-- The words of the command, with the flag taken off.
pub command_words :
    (c : Collection) (rm : Bool)
    → IsPlain c
    → (w : Text) × (rest : List Text) × (command_of c rm ≡ text "gc" ∷ (w ∷ rest))
      × (without_flag (text "gc" ∷ (w ∷ rest)) ≡ (text "gc" ∷ words_of c, rm))
unfolding command_of words_of
command_words everything true p = (_, _, refl, flag_command everything true p)
command_words everything false p = (_, _, refl, flag_command everything false p)
command_words (older n) true p = (_, _, refl, flag_command (older n) true p)
command_words (older n) false p = (_, _, refl, flag_command (older n) false p)
command_words (by_hash hash) true p = (_, _, refl, flag_command (by_hash hash) true p)
command_words (by_hash hash) false p = (_, _, refl, flag_command (by_hash hash) false p)

module _ (B : Bucket Stored) (K : Bucket (Unit {0})) (parse_time : Text → Option ℕ) where
  abbrev Store : Type 0
  Store = Held B K parse_time

  abbrev pub answered : Store × Report → Store × GcResponse
  answered (s, report) = (s, response_of report)

  all_agrees :
      (rm : Bool) (s : Store)
      → gc_mode_all B K parse_time rm s ≡ answered (gc_all B K parse_time rm s)
  unfolding gc_mode_all gc_all sweep response_of gc_delete_physical
  all_agrees true s = refl
  all_agrees false s = refl

  old_agrees :
      (now days : ℕ) (rm : Bool) (s : Store)
      → gc_mode_old B K parse_time now days rm s ≡ answered (gc_days B K parse_time now days rm s)
  unfolding gc_mode_old gc_days sweep response_of gc_delete_physical
  old_agrees now days true s = refl
  old_agrees now days false s = refl

  hash_agrees :
      (hash : Text) (rm : Bool) (s : Store)
      → gc_mode_hash B K parse_time hash rm s ≡ answered (gc_by_hash B K parse_time hash rm s)
  unfolding gc_mode_hash gc_by_hash sweep response_of gc_delete_physical
  hash_agrees hash rm s = elim (Result-cases (delete_commit B hash s.history)) [
    | inl (history, kept) ↦ ground (arith, kept)
    | inr (e, missing) ↦ ground (arith, missing)
  ]

  command_agrees :
      (c : Collection) (rm : Bool) (now : ℕ) (s : Store)
      → IsPlain c
      → gc B K parse_time now (some (request_of c rm)) s
        ≡ answered (gc_command B K parse_time now (text "gc" ∷ words_of c) rm s)
  unfolding gc request_of gc_command words_of gc_old days_of days_or_week text_beq
  command_agrees everything rm now s p = all_agrees rm s
  command_agrees (older n) rm now s p =
      ground (arith, atoi-decimal (suc n) p, old_agrees now (suc n) rm s)
  command_agrees (by_hash hash) rm now s p = ground (arith, p, hash_agrees hash rm s)

  -- The HTTP handler and the command line do the same to the history, the memory of layers and the
  -- files, and report the same, for each collection that both can ask for, with and without -rm.
  pub gc_agrees :
      (c : Collection) (rm : Bool) (now : ℕ) (s : Store)
      → IsPlain c
      → gc B K parse_time now (some (request_of c rm)) s
        ≡ answered (handle_gc B K parse_time now (command_of c rm) s)
  unfolding handle_gc
  gc_agrees c rm now s p =
      let (w, rest, e, flag) = command_words c rm p in
      command_agrees c rm now s p
      ∙ sym (ap (λ words. answered (handle_gc B K parse_time now words s)) e ∙ ground (arith, flag))
