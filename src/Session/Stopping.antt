-- ===== src/Session/Stopping.antt =====
-- `stop_listening` from any thread.
use rabbitmq_pika_adapter.Prelude.{ℕ, ◌≡◌, true, ◌∷◌, arith, sum_map, ◌∙◌}
use rabbitmq_pika_adapter.Outcome.{ok, ◌>>◌}
use rabbitmq_pika_adapter.Value.{Value}
use rabbitmq_pika_adapter.Session.{
  Call, add_callback_threadsafe, stop_consuming, close_channel, close_connection, Event, did,
  failed, counted, Log, Env, Settings, Session, Do, call, attempt, when_channel, when_connection,
  close_directly, shut_down, request_or_close, stop_listening,
}

-- Calls on the channel or the connection that are not safe outside of the connection's thread.
abbrev pub touches : Call → ℕ
touches stop_consuming = 1
touches close_channel = 1
touches close_connection = 1
touches _ = 0

abbrev pub unsafe : Event → ℕ
unsafe (did c) = touches c
unsafe (failed c) = touches c
unsafe (counted _) = 0

module _ (env : Env) (settings : Settings) where
  -- The action returns and leaves the flag alone.
  abbrev Keeps : Do env settings → Type 0
  Keeps m = (s : Session) → ((m s).0 ≡ ok tt) × ((m s).1.stop_me ≡ s.stop_me)

  attempt-Keeps : (c : Call) → Keeps (attempt env settings c)
  unfolding attempt call
  attempt-Keeps c s = ground arith

  when_channel-Keeps : (c : Call) → Keeps (when_channel env settings (attempt env settings c))
  when_channel-Keeps c s = ground (arith, attempt-Keeps c s)

  when_connection-Keeps : (c : Call) → Keeps (when_connection env settings (attempt env settings c))
  when_connection-Keeps c s = ground (arith, attempt-Keeps c s)

  then-Keeps : (m n : Do env settings) → Keeps m → Keeps n → Keeps (m >> n)
  then-Keeps m n first second s =
      let (returned, kept) = first s in rw returned ((second (m s).1).0, (second (m s).1).1 ∙ kept)

  close_directly-Keeps : Keeps (close_directly env settings)
  unfolding close_directly
  close_directly-Keeps =
      let stops = when_channel env settings (attempt env settings stop_consuming) in
      let closes = when_channel env settings (attempt env settings close_channel) in
      let ends = when_connection env settings (attempt env settings close_connection) in
      then-Keeps stops (closes >> ends) (when_channel-Keeps stop_consuming) (
        then-Keeps closes ends (when_channel-Keeps close_channel)
          (when_connection-Keeps close_connection))

  request_or_close-Keeps : Keeps (request_or_close env settings)
  unfolding call
  request_or_close-Keeps s = ground (
    arith,
    close_directly-Keeps s,
    close_directly-Keeps (record s { log = failed add_callback_threadsafe ∷ s.log }),
  )

  -- `shutdown` of the executor touches nothing.
  shut_down-quiet :
      (s : Session)
      → let (r, s') = shut_down env settings s in
        (r ≡ ok tt)
        × (s'.stop_me ≡ s.stop_me)
        × (s'.has_connection ≡ s.has_connection)
        × (sum_map unsafe s'.log ≡ sum_map unsafe s.log)
  unfolding attempt call
  shut_down-quiet s = ground arith

  request-quiet :
      (s : Session) {v : Value}
      → s.has_connection ≡ true
      → env.connection_open s.log ≡ true
      → env.answer s.log add_callback_threadsafe ≡ ok v
      → sum_map unsafe (request_or_close env settings s).1.log ≡ sum_map unsafe s.log
  unfolding call
  request-quiet s connected is_open accepted = ground arith

  -- `stop_listening` returns and asks to stop, however the calls end.
  pub stop_listening_returns :
      (s : Session)
      → let (r, s') = stop_listening env settings s in (r ≡ ok tt) × (s'.stop_me ≡ true)
  unfolding stop_listening
  stop_listening_returns s =
      let flagged = record s { stop_me = true } in
      let (returned, kept, connection, quiet) = shut_down-quiet flagged in
      let (done, flag) = request_or_close-Keeps (shut_down env settings flagged).1 in
      rw returned (done, flag ∙ kept)

  -- While the connection is open and takes callbacks, the thread that calls `stop_listening` touches
  -- neither the channel nor the connection.
  pub stop_listening_safe :
      (s : Session)
      → s.has_connection ≡ true
      → ((log : Log) → env.connection_open log ≡ true)
      → ((log : Log) → (v : Value) × (env.answer log add_callback_threadsafe ≡ ok v))
      → sum_map unsafe (stop_listening env settings s).1.log ≡ sum_map unsafe s.log
  unfolding stop_listening
  stop_listening_safe s connected opens accepts =
      let flagged = record s { stop_me = true } in
      let s1 = (shut_down env settings flagged).1 in
      let (returned, kept, connection, quiet) = shut_down-quiet flagged in
      let (v, accepted) = accepts s1.log in
      rw returned (request-quiet s1 (connection ∙ connected) (opens s1.log) accepted ∙ quiet)
