-- ===== src/Egress/Halt.antt =====
-- src/egress-killswitch.ts: what the global kill switch stops.
use wave_realtime_edge.Common.{
  keep, Bool-cases, length, ◌==◌, inl, inr, ℕ, String, ◌≡◌, refl, ◌∙◌, some, List, [], ◌∷◌, get,
  put, get-put_self, get-put,
}
use wave_realtime_edge.Egress.Killswitch.{
  is_expired, read_registry, ArmedStream, Parsed, KillswitchStore, registry_key, killswitch_key,
  ConcurrencyLimits, is_kill_switch_active, write_registry, register_armed, register_disarmed,
  evaluate_arm, sweep, sweep_expired, activate_kill_switch, killswitch,
}

module _ (json_stringify : List ArmedStream → String) (json_parse : String → Parsed) where
  -- What clients of the store do, other than to clear the switch.
  pub data Request : Type 0 where
    arm : String → String → ℕ → Request
    disarm : String → Request
    sweep_at : ℕ → ℕ → Request
    activate : Request

  unfoldable pub perform : Request → KillswitchStore → KillswitchStore
  unfolding register_armed register_disarmed sweep_expired activate_kill_switch
  perform (arm org_id stream_id now) store =
      register_armed json_stringify json_parse org_id stream_id now store
  perform (disarm stream_id) store = register_disarmed json_stringify json_parse stream_id store
  perform (sweep_at now max) store = (sweep_expired json_stringify json_parse now max store).store
  perform activate store = (activate_kill_switch json_stringify json_parse store).store

  unfoldable pub perform_all : List Request → KillswitchStore → KillswitchStore
  unfolding perform
  perform_all [] store = store
  perform_all (r ∷ rs) store = perform_all rs (perform r store)

  write_registry-flag :
      (entries : List ArmedStream) (store : KillswitchStore)
      → get killswitch_key (write_registry json_stringify json_parse entries store)
        ≡ get killswitch_key store
  unfolding write_registry
  write_registry-flag entries store =
      get-put registry_key killswitch_key (json_stringify entries) store

  sweep_expired-flag :
      (now max : ℕ) (store : KillswitchStore)
      → get killswitch_key (sweep_expired json_stringify json_parse now max store).store
        ≡ get killswitch_key store
  unfolding sweep_expired sweep
  sweep_expired-flag now max store =
      let armed = read_registry json_stringify json_parse store in
      let expired = keep (λ e. is_expired e.armed_at now max) armed in
      elim (Bool-cases (length expired == 0)) [
        | inl none_due ↦ rw (sweep_expired, none_due) refl
        | inr due ↦ rw (sweep_expired, due) (write_registry-flag _ store)
      ]

  -- No request clears the switch.
  perform-flag :
      (r : Request) (store : KillswitchStore)
      → get killswitch_key store ≡ some "1"
      → get killswitch_key (perform r store) ≡ some "1"
  unfolding perform register_armed register_disarmed activate_kill_switch
  perform-flag (arm org_id stream_id now) store h = write_registry-flag _ store ∙ h
  perform-flag (disarm stream_id) store h = write_registry-flag _ store ∙ h
  perform-flag (sweep_at now max) store h = sweep_expired-flag now max store ∙ h
  perform-flag activate store h =
      write_registry-flag [] (put killswitch_key "1" store) ∙ get-put_self killswitch_key "1" store

  perform_all-flag :
      (rs : List Request) (store : KillswitchStore)
      → get killswitch_key store ≡ some "1"
      → get killswitch_key (perform_all rs store) ≡ some "1"
  unfolding perform_all
  perform_all-flag [] store h = h
  perform_all-flag (r ∷ rs) store h = perform_all-flag rs (perform r store) (perform-flag r store h)

  -- Once the kill switch is activated, every request to arm a stream is refused with "killswitch", for any org and any caps, after whatever registrations, disarms, sweeps and further activations have followed.
  pub evaluate_arm-killswitch :
      (rs : List Request) (store : KillswitchStore) (org_id : String) (limits : ConcurrencyLimits)
      → let halted = (activate_kill_switch json_stringify json_parse store).store in
        evaluate_arm json_stringify json_parse org_id limits (perform_all rs halted) ≡ killswitch
  unfolding evaluate_arm is_kill_switch_active
  evaluate_arm-killswitch rs store org_id limits =
      let halted = (activate_kill_switch json_stringify json_parse store).store in
      let flag = perform_all-flag rs halted (
        unfold activate_kill_switch in
        write_registry-flag [] (put killswitch_key "1" store)
        ∙ get-put_self killswitch_key "1" store) in
      rw (evaluate_arm, is_kill_switch_active, flag) refl
