-- ===== src/Actor/Base.antt =====
-- state/actor/actor.h and actor.cpp.
use codecharacter_simulator.Prelude.{ℤ, pos, ◌+ℤ◌, ltb_ℤ, Result, ok, out_of_range, throw_if, ◌>>◌}
use codecharacter_simulator.Players.{PlayerId, ActorType}
use codecharacter_simulator.Physics.Double.{Double}
use codecharacter_simulator.Physics.Vector.{Vector}

-- `ActorId` is `int64_t`.
abbrev pub ActorId : Type 0
ActorId = ℤ

pub record Actor (D : Double) : Type 0 where
  pub id : ActorId
  pub player_id : PlayerId
  pub actor_type : ActorType
  pub hp : ℤ
  pub max_hp : ℤ
  pub position : Vector D

-- The static counter `actor_id_increment`: the new counter, or the identifier and the new counter.
unfoldable pub set_actor_id_increment : ActorId → Result ActorId
set_actor_id_increment actor_id = do throw_if (ltb_ℤ actor_id (pos 0)) out_of_range; ok actor_id

abbrev pub get_next_actor_id : ActorId → ActorId × ActorId
get_next_actor_id increment = (increment, increment +ℤ pos 1)

module _ {D : Double} where
  -- A hit point count outside 0 .. `max_hp` is refused.
  unfoldable pub set_hp : Actor D → ℤ → Result (Actor D)
  set_hp a hp = do
    throw_if (ltb_ℤ hp (pos 0)) out_of_range
    throw_if (ltb_ℤ a.max_hp hp) out_of_range
    ok (record a { hp = hp })
