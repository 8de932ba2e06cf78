-- ===== src/Zones/Wiper/Motor.antt =====
-- The wiper zone against the motor that its outcomes drive:
-- crates/common/src/vehicle_state/wiper.rs.
use sdv_simulation.Prelude.{
  Bool, true, false, List, [], ◌∷◌, Option, none, some, ◌≡◌, ◌≢◌, refl, arith, ap, ◌∙◌, ◌++◌, All,
}
use sdv_simulation.Zones.Wiper.{
  WiperState, WiperMessage, WiperOutcome, WiperContext, on_receiving_message,
}

abbrev pub wipes : WiperState → Bool
wipes WiperState.running = true
wipes _ = false

-- A motor that carries out the outcomes in turn; `none` when it is started while it runs or
-- stopped while it stands.
abbrev pub drive : Bool → List WiperOutcome → Option Bool
drive b [] = some b
drive false (WiperOutcome.start_wiping ∷ rest) = drive true rest
drive true (WiperOutcome.start_wiping ∷ rest) = none
drive true (WiperOutcome.stop_wiping ∷ rest) = drive false rest
drive false (WiperOutcome.stop_wiping ∷ rest) = none
drive b (WiperOutcome.log_warning _ ∷ rest) = drive b rest

-- Every message but BecomeOff moves the motor with the state: it runs afterwards exactly if the
-- zone does.
pub on_receiving_message-drive :
    (c : WiperContext) (m : WiperMessage)
    → m ≢ WiperMessage.become_off
    → let r = on_receiving_message c m in
      drive (wipes c.state) r.outcomes ≡ some (wipes r.ctx.state)
unfolding on_receiving_message
on_receiving_message-drive c WiperMessage.become_off h = absurd (h refl)
on_receiving_message-drive c _ h = ground arith

-- The zone after the messages in turn, and all that it asks for.
abbrev pub receive_all : List WiperMessage → WiperContext → WiperContext × List WiperOutcome
receive_all [] c = (c, [])
receive_all (m ∷ ms) c =
    let r = on_receiving_message c m in
    let (c', rest) = receive_all ms r.ctx in (c', r.outcomes ++ rest)

drive-append :
    (b b' : Bool) (os more : List WiperOutcome)
    → drive b os ≡ some b'
    → drive b (os ++ more) ≡ drive b' more
drive-append b b' [] more h = cc
drive-append false b' (WiperOutcome.start_wiping ∷ os) more h = drive-append true b' os more h
drive-append true b' (WiperOutcome.start_wiping ∷ os) more h = cc
drive-append true b' (WiperOutcome.stop_wiping ∷ os) more h = drive-append false b' os more h
drive-append false b' (WiperOutcome.stop_wiping ∷ os) more h = cc
drive-append b b' (WiperOutcome.log_warning w ∷ os) more h = drive-append b b' os more h

receive_all-drive :
    (ms : List WiperMessage) (c : WiperContext)
    → All (λ m. m ≢ WiperMessage.become_off) ms
    → let (c', os) = receive_all ms c in drive (wipes c.state) os ≡ some (wipes c'.state)
receive_all-drive [] c h = refl
receive_all-drive (m ∷ ms) c (h, hs) =
    let r = on_receiving_message c m in
    drive-append (wipes c.state) (wipes r.ctx.state) r.outcomes (receive_all ms r.ctx).1
      (on_receiving_message-drive c m h)
    ∙ receive_all-drive ms r.ctx hs

become_off_asks_nothing :
    (c : WiperContext)
    → let r = on_receiving_message c WiperMessage.become_off in
      (r.ctx.state ≡ WiperState.off) × (r.outcomes ≡ [])
unfolding on_receiving_message
become_off_asks_nothing c = (refl, refl)

-- A session of the wiper zone, of any messages but BecomeOff, and the BecomeOff that ends it, from
-- a motor that runs exactly if the zone does. Before the BecomeOff the motor runs exactly if the
-- zone does, never having been started while it ran or stopped while it stood; after it the zone is
-- off, and the motor still runs if it ran before.
pub shutdown_leaves_motor :
    (ms : List WiperMessage) (c : WiperContext)
    → All (λ m. m ≢ WiperMessage.become_off) ms
    → let (before, os) = receive_all ms c in
      let last = on_receiving_message before WiperMessage.become_off in
      (drive (wipes c.state) os ≡ some (wipes before.state))
      × (last.ctx.state ≡ WiperState.off)
      × (drive (wipes c.state) (os ++ last.outcomes) ≡ some (wipes before.state))
shutdown_leaves_motor ms c h =
    let (before, os) = receive_all ms c in
    let in_step = receive_all-drive ms c h in
    let (ends, silent) = become_off_asks_nothing before in
    (
      in_step,
      ends,
      ap (λ more. drive (wipes c.state) (os ++ more)) silent
          ∙ drive-append (wipes c.state) (wipes before.state) os [] in_step,
    )
