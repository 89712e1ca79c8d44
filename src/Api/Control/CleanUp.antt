-- ===== src/Api/Control/CleanUp.antt =====
-- internal/transfer/progress.go and manager.go under internal/api/handlers/transfer_control.go: the
-- clean-up of one of two transfers of the same image and peer.
use baleen_engine.Base.{
  ℕ, none, some, String, ==_iff, ==_self, text_eq, string_eq, nat_eq, ◌≡◌, arith, sym, ap, ◌∙◌,
}
use baleen_engine.Base.Map.{lookup, lookup-insert, lookup-delete}
use baleen_engine.Transfer.Hub.{hub_key}
use baleen_engine.Transfer.Progress.{Writer}
use baleen_engine.Transfer.Manager.{get, register, unregister}
use baleen_engine.Transfer.Engine.{Engine, start_writer, clean_up}
use baleen_engine.Api.Control.{ControlPayload, control_writer, handle_control}

-- What a request names to control the transfer of a writer.
abbrev pub payload_of : Writer → ControlPayload
payload_of w = record { image_name = w.image; peer_ip = w.peer }

-- The pointers that the two starts leave, and what is registered behind each step.
get-start_writer :
    (pw : ℕ) (w : Writer) (g : Engine)
    → (lookup pw (start_writer pw w g).writers ≡ some w)
      × (get w.image w.peer (start_writer pw w g).manager ≡ some pw)
unfolding start_writer register get
get-start_writer pw w g =
    let key = hub_key w.image w.peer in
    (
      ground (arith, ==_self pw, lookup-insert pw pw w g.writers),
      ground (arith, ==_self key, lookup-insert key key pw g.manager.transfers),
    )

start_writer-other :
    (pw other : ℕ) (w : Writer) (g : Engine)
    → (pw ≡ other → ⊥)
    → lookup other (start_writer pw w g).writers ≡ lookup other g.writers
unfolding start_writer
start_writer-other pw other w g apart =
    ground (arith, ==_iff pw other, apart, lookup-insert pw other w g.writers)

get-clean_up :
    (pw : ℕ) (w : Writer) (g : Engine)
    → lookup pw g.writers ≡ some w
    → get w.image w.peer (clean_up pw g).manager ≡ none
unfolding clean_up unregister get
get-clean_up pw w g at =
    let key = hub_key w.image w.peer in
    ground (arith, at, ==_self key, lookup-delete key key g.manager.transfers)

clean_up-writers : (pw : ℕ) (g : Engine) → (clean_up pw g).writers ≡ g.writers
unfolding clean_up
clean_up-writers pw g = ground arith

-- A first transfer runs, and a second one of the same image and peer starts. Pause, resume and cancel
-- then act on the second. When the first ends, its clean-up takes the second out of the registry: the
-- second is there unchanged, but it can be neither paused nor resumed, which is answered with 404.
pub unregister_older :
    (older newer : ℕ) (first second : Writer) (action : String) (g : Engine)
    → (newer ≡ older → ⊥)
    → first.image ≡ second.image
    → first.peer ≡ second.peer
    → let both = start_writer newer second (start_writer older first g) in
      let after = clean_up older both in
      (handle_control action (some (payload_of second)) both
        ≡ control_writer action newer second both)
      × (lookup newer after.writers ≡ some second)
      × (handle_control "pause" (some (payload_of second)) after ≡ (after, 404))
      × (handle_control "resume" (some (payload_of second)) after ≡ (after, 404))
unfolding handle_control
unregister_older older newer first second action g apart image peer =
    let both = start_writer newer second (start_writer older first g) in
    let (at_newer, registered) = get-start_writer newer second (start_writer older first g) in
    let at_older =
      start_writer-other newer older second (start_writer older first g) apart
      ∙ (get-start_writer older first g).0 in
    let gone : get second.image second.peer (clean_up older both).manager ≡ none =
      ap (λ i. get i second.peer (clean_up older both).manager) (sym image)
      ∙ ap (λ p. get first.image p (clean_up older both).manager) (sym peer)
      ∙ get-clean_up older first both at_older in
    (
      ground (arith, registered, at_newer),
      ap (lookup newer) (clean_up-writers older both) ∙ at_newer,
      ground (arith, gone),
      ground (arith, gone),
    )
