-- ===== src/Bundle/Tests.antt =====
-- A bundle of the sample is reachable.
use topgent.Crypto.Toy.{toy}
use topgent.Sample.{origin, observed, sealed, rotated, unsealed, sensor_key, next_key}
use topgent.Chain.{sign_rotation}
use topgent.Bundle.{new, append_record}
use topgent.Bundle.Reachable.{Step, Reachable, IsSound, Reachable-IsSound}

made : Reachable toy origin rotated
made =
    Reachable.next
      (Reachable.next
        (Reachable.next (Reachable.next Reachable.start (Step.appended (new origin) (observed 1)))
          (Step.appended (append_record toy (new origin) (observed 1)).0 (observed 2)))
        (Step.sealed_by unsealed sensor_key))
      (Step.rotated_by sealed (sign_rotation toy sensor_key next_key.public 3))

Reachable-IsSound_example : IsSound toy origin rotated
Reachable-IsSound_example = Reachable-IsSound toy origin rotated made
