-- ===== src/Config.antt =====
-- client/lib/src/ExtConfig.h and ObjListType.h over the generated Config.h, whose constants are
-- the fields of `Config`.
use cc_mqtt311_libs.Base.{ℕ, ◌+◌, ◌*◌, Bool, ◌&&◌, ltb, ◌==◌, if◌then◌else◌}

pub record Config : Type 0 where
  pub has_dyn_mem_alloc : Bool
  pub has_topic_format_verification : Bool
  pub has_sub_topic_verification : Bool
  pub max_output_packet_size : ℕ
  pub receive_max_limit : ℕ
  pub send_max_limit : ℕ
  pub config_subscribe_ops_limit : ℕ
  pub config_unsubscribe_ops_limit : ℕ
  pub sub_filters_limit : ℕ
  pub max_qos : ℕ
  -- `std::vector::max_size`, which the standard library chooses.
  pub vector_max_size : ℕ

module _ (cfg : Config) where
  abbrev pub unless_dyn : ℕ
  unless_dyn = if cfg.has_dyn_mem_alloc then 0 else 1

  abbrev pub connect_ops_limit : ℕ
  connect_ops_limit = unless_dyn

  abbrev pub keep_alive_ops_limit : ℕ
  keep_alive_ops_limit = unless_dyn

  abbrev pub disconnect_ops_limit : ℕ
  disconnect_ops_limit = unless_dyn

  abbrev pub recv_ops_limit : ℕ
  recv_ops_limit =
      if ltb cfg.max_qos 2
      then 1
      else if cfg.receive_max_limit == 0
      then 0
      else cfg.receive_max_limit + 1

  abbrev pub send_ops_limit : ℕ
  send_ops_limit = if cfg.send_max_limit == 0 then 0 else cfg.send_max_limit + 1

  abbrev pub has_ops_limit : Bool
  has_ops_limit =
      ltb 0 connect_ops_limit
      && ltb 0 keep_alive_ops_limit
      && ltb 0 disconnect_ops_limit
      && ltb 0 cfg.config_subscribe_ops_limit
      && ltb 0 cfg.config_unsubscribe_ops_limit
      && ltb 0 recv_ops_limit
      && ltb 0 send_ops_limit

  abbrev pub max_timers_limit : ℕ
  max_timers_limit =
      connect_ops_limit * 1
      + keep_alive_ops_limit * 3
      + disconnect_ops_limit * 0
      + cfg.config_subscribe_ops_limit * 1
      + cfg.config_unsubscribe_ops_limit * 1
      + recv_ops_limit * 1
      + send_ops_limit * 1

  unfoldable pub timers_limit : ℕ
  timers_limit = if has_ops_limit then max_timers_limit else 0

  abbrev pub max_ops_limit : ℕ
  max_ops_limit =
      connect_ops_limit + keep_alive_ops_limit + disconnect_ops_limit
      + cfg.config_subscribe_ops_limit + cfg.config_unsubscribe_ops_limit + recv_ops_limit
      + send_ops_limit

  unfoldable pub ops_limit : ℕ
  ops_limit = if has_ops_limit then max_ops_limit else 0

  unfoldable pub packet_ids_limit : ℕ
  packet_ids_limit =
      if cfg.has_dyn_mem_alloc
      then 0
      else cfg.config_subscribe_ops_limit + cfg.config_unsubscribe_ops_limit + send_ops_limit

  -- `max_size` of `ObjListType`: a dynamic vector where the limit is 0 and the feature is there.
  unfoldable pub list_max_size : ℕ → Bool → ℕ
  list_max_size limit has_feature =
      if (limit == 0) && has_feature then cfg.vector_max_size else limit
