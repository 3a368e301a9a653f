-- ===== src/OnCall/Tests.antt =====
-- A daily rotation of two people in UTC, handed over at midnight.
use uptimeflow.Common.{ℕ, ◌+◌, ◌%◌, ◌<◌, ◌≡◌, ◌≢◌, refl, some, [], ◌∷◌, arith}
use uptimeflow.Common.Int.{ℤ, pos, ◌+ℤ◌, ◌-ℤ◌, floor_div, rem}
use uptimeflow.Common.Text.{Text, codes}
use uptimeflow.Enums.{RecordId, Instant}
use uptimeflow.OnCall.{
  daily, Schedule, resolve_on_call, rotation_index, sort_by_position, insert_by_position,
  wrap_index, answer,
}
use uptimeflow.OnCall.Rotation.{rotation_index_handoff}
use uptimeflow.OnCall.Backup.{Distinct, resolve_backup_is_other}

abbrev utc : Instant → Text → ℤ
utc now zone = pos 0

abbrev rota : Schedule
rota = record {
  timezone = codes "UTC";
  rotation_type = daily;
  handoff_minute = 0;
  participants =
      record { user_id = 11; position = 2 } ∷ (record { user_id = 12; position = 1 } ∷ []);
  overrides = record { user_id = 13; starts_at = 5; ends_at = 9 } ∷ [];
}

the_second_comes_first : (resolve_on_call utc rota 100).primary ≡ some 12
unfolding resolve_on_call rotation_index sort_by_position insert_by_position wrap_index answer
    floor_div rem ◌+ℤ◌ ◌-ℤ◌
the_second_comes_first = refl

an_override_wins : (resolve_on_call utc rota 7).primary ≡ some 13
unfolding resolve_on_call rotation_index sort_by_position insert_by_position wrap_index answer
    floor_div rem ◌+ℤ◌ ◌-ℤ◌
an_override_wins = refl

rotation_index_handoff_example :
    (k : ℕ) × (rotation_index utc rota 100 ≡ pos k)
    × (k < 2)
    × (rotation_index utc rota 86_400_100 ≡ pos ((k + 1) % 2))
unfolding ◌+ℤ◌ ◌-ℤ◌
rotation_index_handoff_example = rotation_index_handoff utc rota 100 86_400_100 (omega arith) refl

rota-Distinct : Distinct rota.participants
rota-Distinct = ((λ h. omega arith, tt), (tt, tt))

resolve_backup_is_other_example : ◌≢◌ {A = RecordId} 12 11
unfolding resolve_on_call rotation_index sort_by_position insert_by_position wrap_index answer
    floor_div rem ◌+ℤ◌ ◌-ℤ◌
resolve_backup_is_other_example = resolve_backup_is_other utc rota 100 12 11 rota-Distinct refl refl
