-- ===== src/Agent/Repair/Examples.antt =====
-- `should_stop_repair` of src/foampilot/agent/repair.py at concrete inputs.
use foam_pilot.Prelude.{
  ℕ, ◌<◌, String, ◌≡◌, ◌≢◌, ◌↔◌, refl, true, false, Option, some, none, List, [], ◌∷◌,
}
use foam_pilot.Agent.Repair.{should_stop_repair, repeats, repeated_failure}
use foam_pilot.Agent.Repair.Stop.{EndsTwice, should_stop_repair-exactly}

abbrev fingerprints : List String
fingerprints = "a" ∷ "b" ∷ "b" ∷ []

repeated-stop :
    should_stop_repair fingerprints 2 5 true (some 3) false
    ≡ record { stop = true; reason = repeated_failure }
unfolding should_stop_repair repeats
repeated-stop = refl

should_stop_repair-exactly_example :
    ((should_stop_repair fingerprints 2 5 true (some 3) false).stop ≡ false) ↔ (
      (false ≡ false)
      × (2 < 5)
      × (¬ EndsTwice fingerprints)
      × (◌≢◌ {A = Option ℕ} (some 3) (some 0))
      × (◌≢◌ {A = Option ℕ} (some 3) none → true ≡ true))
should_stop_repair-exactly_example = should_stop_repair-exactly fingerprints 2 5 true (some 3) false
