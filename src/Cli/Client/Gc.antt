-- ===== src/Cli/Client/Gc.antt =====
-- clientHandleGC of internal/cli/client_repl.go against handleGC of internal/cli/gc_cli.go.
use baleen_engine.Base.{
  ℕ, suc, Bool, Option, some, ◌∷◌, Text, text, text_eq, text_beq, ◌≡◌, refl, arith, ap, ◌∙◌,
}
use baleen_engine.Base.Decimal.{scan_d-decimal}
use baleen_engine.Ledger.Interface.{Bucket}
use baleen_engine.Ledger.{Stored}
use baleen_engine.Cli.Gc.{Held, handle_gc}
use baleen_engine.Cli.Client.{asks, asked_days, gc_payload, client_handle_gc}
use baleen_engine.Api.Gc.{gc}
use baleen_engine.Api.Gc.Agrees.{
  Collection, everything, older, by_hash, words_of, command_of, request_of, IsPlain, command_words,
  answered, gc_agrees,
}

payload_lem :
    (c : Collection) (rm : Bool)
    → IsPlain c
    → gc_payload (text "gc" ∷ words_of c) rm ≡ asks (request_of c rm)
unfolding gc_payload words_of request_of asked_days text_beq
payload_lem everything rm p = refl
payload_lem (older n) rm p = ground (arith, scan_d-decimal (suc n) p)
payload_lem (by_hash hash) rm p = ground (arith, p)

client_request :
    (c : Collection) (rm : Bool)
    → IsPlain c
    → client_handle_gc (command_of c rm) ≡ asks (request_of c rm)
unfolding client_handle_gc
client_request c rm p =
    let (w, rest, e, flag) = command_words c rm p in
    ap client_handle_gc e ∙ ground (arith, flag) ∙ payload_lem c rm p

module _ (B : Bucket Stored) (K : Bucket (Unit {0})) (parse_time : Text → Option ℕ) where
  -- For each collection that both interfaces can ask for, with and without -rm: the words of the
  -- command make the client send a request with which the daemon's handler does to the history, the
  -- memory of layers and the files just what the daemon's own prompt does for these words, and
  -- reports the same.
  pub client_gc_agrees :
      (c : Collection) (rm : Bool) (now : ℕ) (s : Held B K parse_time)
      → IsPlain c
      → (client_handle_gc (command_of c rm) ≡ asks (request_of c rm))
        × (gc B K parse_time now (some (request_of c rm)) s
            ≡ answered B K parse_time (handle_gc B K parse_time now (command_of c rm) s))
  client_gc_agrees c rm now s p = (client_request c rm p, gc_agrees B K parse_time c rm now s p)
