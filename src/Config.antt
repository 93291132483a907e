-- ===== src/Config.antt =====
-- backend/app/core/config.py: the settings with a range, and the checks on them. Durations are in
-- microseconds where the program adds them to timestamps, and `presence_*` in seconds.
use chatterbox.Prelude.{ℕ, Bool, ◌&&◌, not, leb, Option, none, some, if◌then◌else◌}

pub record Settings : Type 0 where
  pub presence_ttl_seconds : ℕ
  pub presence_heartbeat_seconds : ℕ
  pub typing_ttl : ℕ
  pub realtime_sweep_interval : ℕ
  pub realtime_rate_limit_window_seconds : ℕ
  pub message_send_rate_limit : ℕ
  pub typing_rate_limit : ℕ
  pub receipt_rate_limit : ℕ
  pub attachment_max_bytes : ℕ
  pub attachment_max_per_message : ℕ
  pub attachment_upload_expire_minutes : ℕ
  pub attachment_pending_ttl_hours : ℕ
  pub attachment_cleanup_interval_seconds : ℕ

-- the bounds of the fields
abbrev fields_in_range : Settings → Bool
fields_in_range s =
    leb 5 s.presence_ttl_seconds
    && (leb 1 s.presence_heartbeat_seconds
        && (leb 1_000_000 s.typing_ttl
            && (leb 100_000 s.realtime_sweep_interval
                && (leb 1 s.realtime_rate_limit_window_seconds
                    && (leb 1 s.message_send_rate_limit
                        && (leb 1 s.typing_rate_limit
                            && (leb 1 s.receipt_rate_limit
                                && (leb 1 s.attachment_max_bytes
                                    && ((leb 1 s.attachment_max_per_message
                                          && leb s.attachment_max_per_message 10)
                                        && ((leb 1 s.attachment_upload_expire_minutes
                                              && leb s.attachment_upload_expire_minutes 60)
                                            && (leb 1 s.attachment_pending_ttl_hours
                                                && leb 60
                                                    s.attachment_cleanup_interval_seconds)))))))))))

-- the validation of `Settings`, `validate_realtime_intervals` last
pub validate : Settings → Option Settings
validate s =
    if fields_in_range s && not (leb s.presence_ttl_seconds s.presence_heartbeat_seconds)
    then some s
    else none
