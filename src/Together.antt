-- ===== src/Together.antt =====
-- The brain and its zone twinlets together: virtual_car_actor.rs, headlamp_actor.rs and
-- wiper_actor.rs of crates/common/src/twin_runtime, with the messages that they exchange.
pub mod Head
pub mod Landing
pub mod Delivery
pub mod Exchange
pub mod Round
pub mod Runs
pub mod Retry
pub mod Lost
pub mod Switching
use sdv_simulation.Prelude.{false, ◌≡◌, List, [], ◌∷◌, Option, none, some}
use sdv_simulation.Twin.{ZoneMessage, DigitalTwinCarVocabulary}
use sdv_simulation.Brain.{Brain, Effect, tell}
use sdv_simulation.Twinlet.{HeadlampActorState, WiperActorState, handle_apply, wiper_handle_apply}

pub record Twinlets : Type 0 where
  pub headlamp : HeadlampActorState
  pub wiper : WiperActorState

abbrev headlamp_told :
    HeadlampActorState × Option DigitalTwinCarVocabulary
    → Twinlets
    → Twinlets × Option DigitalTwinCarVocabulary
headlamp_told (s, back) z = (record z { headlamp = s }, back)

abbrev wiper_told :
    WiperActorState × Option DigitalTwinCarVocabulary
    → Twinlets
    → Twinlets × Option DigitalTwinCarVocabulary
wiper_told (s, back) z = (record z { wiper = s }, back)

-- A tell of the brain goes to its zone's twinlet, which may tell back.
unfoldable pub deliver : Effect → Twinlets → Twinlets × Option DigitalTwinCarVocabulary
unfolding handle_apply wiper_handle_apply
deliver (tell (ZoneMessage.headlamp m) turn_id tell_attempt now) z =
    headlamp_told (handle_apply m now turn_id tell_attempt z.headlamp) z
deliver (tell (ZoneMessage.wiper m) turn_id tell_attempt now) z =
    wiper_told (wiper_handle_apply m turn_id tell_attempt z.wiper) z
deliver _ z = (z, none)

abbrev told_back :
    Option DigitalTwinCarVocabulary → List DigitalTwinCarVocabulary → List DigitalTwinCarVocabulary
told_back none rest = rest
told_back (some reply) rest = reply ∷ rest

-- All tells among the effects in order, and what is told back.
unfoldable pub deliver_all : List Effect → Twinlets → Twinlets × List DigitalTwinCarVocabulary
unfolding deliver
deliver_all [] z = (z, [])
deliver_all (e ∷ es) z =
    let (z', back) = deliver e z in
    let (z'', rest) = deliver_all es z' in (z'', told_back back rest)

-- Both twinlets answer, and the brain's context of each zone is the twinlet's own.
pub record Agree (b : Brain) (z : Twinlets) : Type 0 where
  pub headlamp_speaks : z.headlamp.silent ≡ false
  pub wiper_speaks : z.wiper.silent ≡ false
  pub same_headlamp : z.headlamp.ctx ≡ b.twin_car.context.headlamp
  pub same_wiper : z.wiper.ctx ≡ b.twin_car.context.wiper
