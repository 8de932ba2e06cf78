-- ===== src/Examples/Lamps.antt =====
-- The zones at concrete inputs.
use sdv_simulation.Prelude.{some, List, [], ◌∷◌, ◌++◌, ◌≡◌}
use sdv_simulation.Zones.Wiper.{WiperState, WiperMessage, WiperContext}
use sdv_simulation.Zones.Wiper
use sdv_simulation.Zones.Wiper.Motor.{wipes, drive, receive_all, shutdown_leaves_motor}

abbrev parked : WiperContext
parked = record { state = WiperState.off }

-- The rain stops and starts again, and goes on.
abbrev rainy : List WiperMessage
rainy =
    WiperMessage.become_on ∷ WiperMessage.start ∷ WiperMessage.stop ∷ WiperMessage.start
    ∷ WiperMessage.start ∷ []

shutdown_leaves_motor_example :
    let (before, os) = receive_all rainy parked in
    let last = Wiper.on_receiving_message before WiperMessage.become_off in
    (drive (wipes WiperState.off) os ≡ some (wipes before.state))
    × (last.ctx.state ≡ WiperState.off)
    × (drive (wipes WiperState.off) (os ++ last.outcomes) ≡ some (wipes before.state))
shutdown_leaves_motor_example =
    shutdown_leaves_motor rainy parked
      ((λ h. cc), ((λ h. cc), ((λ h. cc), ((λ h. cc), ((λ h. cc), tt)))))
