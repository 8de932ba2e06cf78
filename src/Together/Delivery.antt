-- ===== src/Together/Delivery.antt =====
-- What the twinlets make of effects that are not for them: the brain's tells among all it does, in
-- virtual_car_actor.rs of crates/common/src/twin_runtime/controller.
use sdv_simulation.Prelude.{false, List, [], ◌∷◌, ◌++◌, ◌≡◌, refl}
use sdv_simulation.Brain.{Effect, tell}
use sdv_simulation.Brain.Lacks.{any}
use sdv_simulation.Brain.Tells.{is_tell}
use sdv_simulation.Together.{Twinlets, deliver, deliver_all}

pub deliver_all-mute :
    (es : List Effect) (z : Twinlets) → any is_tell es ≡ false → deliver_all es z ≡ (z, [])
unfolding deliver_all deliver
deliver_all-mute [] z h = refl
deliver_all-mute (tell m t k now ∷ es) z h = cc
deliver_all-mute (_ ∷ es) z h = rw (deliver_all-mute es z h) refl

pub deliver_all-mute_front :
    (es more : List Effect) (z : Twinlets)
    → any is_tell es ≡ false
    → deliver_all (es ++ more) z ≡ deliver_all more z
unfolding deliver_all deliver
deliver_all-mute_front [] more z h = refl
deliver_all-mute_front (tell m t k now ∷ es) more z h = cc
deliver_all-mute_front (_ ∷ es) more z h = rw (deliver_all-mute_front es more z h) refl

pub deliver_all-mute_back :
    (es more : List Effect) (z : Twinlets)
    → any is_tell more ≡ false
    → deliver_all (es ++ more) z ≡ deliver_all es z
unfolding deliver_all
deliver_all-mute_back [] more z h = deliver_all-mute more z h
deliver_all-mute_back (e ∷ es) more z h = rw (deliver_all-mute_back es more (deliver e z).0 h) refl
