-- ===== src/Power/Laws.antt =====
-- The life of a power controller under any sequence of calls.
use embedded_firmware_simula.Prelude.{◌≡◌, ◌≢◌, refl, true, false, List, [], ◌∷◌, arith}
use embedded_firmware_simula.Power.{
  PowerState, off, on, asleep, PowerController, power_on, power_off, sleep, wake, is_power_on,
}

pub data Call : Type 0 where
  powers_on powers_off sleeps wakes : Call

unfoldable pub step : PowerController → Call → PowerController
unfolding power_on power_off sleep wake
step p powers_on = power_on p
step p powers_off = power_off p
step p sleeps = sleep p
step p wakes = wake p

unfoldable pub run : PowerController → List Call → PowerController
unfolding step
run p [] = p
run p (c ∷ cs) = run (step p c) cs

-- The transition diagram.
pub data Moves : PowerState → PowerState → Type 0 where
  stay : {s : PowerState} → Moves s s
  boot : {s : PowerState} → Moves s on
  shut : {s : PowerState} → Moves s off
  doze : Moves on asleep

-- Every call follows an edge of the diagram; in particular only a controller that is on falls
-- asleep.
pub step-Moves : (p : PowerController) (c : Call) → Moves p.state (step p c).state
unfolding step
step-Moves p c = go p.state c
  where
    go : (s : PowerState) (c : Call) → Moves s (step (record { state = s }) c).state
    go off powers_on = boot
    go on powers_on = boot
    go asleep powers_on = boot
    go off powers_off = shut
    go on powers_off = shut
    go asleep powers_off = shut
    go off sleeps = stay
    go on sleeps = doze
    go asleep sleeps = stay
    go off wakes = stay
    go on wakes = stay
    go asleep wakes = boot

abbrev pub NeverPowersOn : List Call → Type 0
NeverPowersOn [] = Unit {0}
NeverPowersOn (c ∷ cs) = (c ≢ powers_on) × NeverPowersOn cs

step_off : (p : PowerController) (c : Call) → c ≢ powers_on → p.state ≡ off → (step p c).state ≡ off
unfolding step
step_off p powers_on n h = absurd (n refl)
step_off p powers_off n h = ground arith
step_off p sleeps n h = ground arith
step_off p wakes n h = ground arith

-- A controller that is off stays off under every sequence of calls without `powerOn`: neither
-- `wake` nor `sleep` brings it back.
pub run_off :
    (p : PowerController) (cs : List Call)
    → p.state ≡ off
    → NeverPowersOn cs
    → ((run p cs).state ≡ off) × (is_power_on (run p cs) ≡ false)
unfolding run is_power_on
run_off p [] h n = ground arith
run_off p (c ∷ cs) h n = run_off (step p c) cs (step_off p c n.0 h) n.1

-- `sleep` and `wake` undo one another on a controller that is on, and a sleeping one does not
-- count as powered on.
pub wake-sleep :
    (p : PowerController)
    → is_power_on p ≡ true
    → (wake (sleep p) ≡ p) × (is_power_on (sleep p) ≡ false)
unfolding wake sleep is_power_on
wake-sleep p h = ground arith
