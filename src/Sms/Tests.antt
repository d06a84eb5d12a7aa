-- ===== src/Sms/Tests.antt =====
-- Runs of the SMS worker.
use nestjs_boilerplate.Base.{◌==◌, not, ◌≡◌, refl, none, [], Text, codes, err, failure}
use nestjs_boilerplate.Shared.Redis.Memory.{memory, memory-Laws, empty}
use nestjs_boilerplate.Sms.{Ports, World, dedup_key, message, process}
use nestjs_boilerplate.Sms.Once.{process_lem}

-- A gateway that is down at moment 1 only.
abbrev ports : Ports
ports = record {
  redis = memory;
  send_accepts = λ to text m. not (m == 1);
  random_uuid = λ m. codes "uuid";
  template = none;
}

abbrev to : Text
to = codes "+442079460958"

abbrev otp : Text
otp = codes "004321"

abbrev down : World ports
down = record { store = empty; moment = 0; sent = [] }

abbrev up : World ports
up = record { store = empty; moment = 5; sent = [] }

text : message ports otp ≡ codes "Your code: 004321"
unfolding message
text = refl

process_lem_example :
    let w' = (process ports to otp down).1 in
    ((process ports to otp down).0 ≡ err (failure "send failed"))
    × (w'.sent ≡ [])
    × (memory.get (dedup_key to otp) w'.store ≡ none)
process_lem_example = process_lem ports memory-Laws to otp down refl
