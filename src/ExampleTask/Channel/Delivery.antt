-- ===== src/ExampleTask/Channel/Delivery.antt =====
-- What becomes of a command from its sending on.
use mathlib.Core.Path.{subst}
use real_time_system.Common.{
  ◌≤◌, ◌<◌, ◌≡◌, refl, true, false, Option, none, some, List, Outcome, done, hang, fault, arith,
  ◌==◌, if◌then◌else◌, length, ap, ◌∙◌, sym,
}
use real_time_system.Common.Int.{ℤ, pos}
use real_time_system.ExampleTask.Controller.{Controller, Shared, cycles}
use real_time_system.ExampleTask.Controller.Target.{distance, IsThere, cycles-IsThere}
use real_time_system.ExampleTask.Channel.{
  CommandId, set_target, Channel, World, written, consumed, take_command, send_command, process,
  task_command_handler,
}

-- A second call of `send_command` on what the first one leaves.
abbrev pub then_send : CommandId → ℤ → Outcome (ℤ × Option Channel) → Outcome (ℤ × Option Channel)
then_send cmd value (done (r, c)) = send_command cmd value c
then_send cmd value hang = hang
then_send cmd value fault = fault

-- The next call of the handler.
abbrev pub handled : World → Outcome (ℤ × Option Channel) → Option Channel × World
handled w (done (r, c)) = task_command_handler c w
handled w hang = (none, w)
handled w fault = (none, w)

-- A channel that nobody holds, with no more commands taken than sent.
abbrev pub IsFree : Channel → Type 0
IsFree c = (c.command_mutex ≡ false) × (c.tail ≤ c.head)

send_free :
    (cmd : CommandId) (value : ℤ) (c : Channel)
    → c.command_mutex ≡ false
    → send_command cmd value (some c) ≡ done (pos 0, some (written cmd value c))
unfolding send_command
send_free cmd value c m = ap (λ b. if b then hang else done (pos 0, some (written cmd value c))) m

not_taken : (c : Channel) → c.tail < c.head → (c.head == c.tail) ≡ false
not_taken c h = ground arith

handler_pending :
    (c : Channel) (w : World)
    → c.command_mutex ≡ false
    → c.tail < c.head
    → task_command_handler (some c) w ≡ (some (consumed c), process c.command_id c.command_data w)
unfolding task_command_handler
handler_pending c w m h =
    ap (λ b. if b then (some c, w) else (some (take_command c w).0, (take_command c w).1)) m
    ∙ ap
        (λ b.
          let r : Channel × World =
            if b then (c, w) else (consumed c, process c.command_id c.command_data w) in
          (some r.0, r.1))
        (not_taken c h)

handler_consumed :
    (c : Channel) (w : World) → task_command_handler (some (consumed c)) w ≡ (some (consumed c), w)
unfolding task_command_handler
handler_consumed c w = ground arith

handled-written :
    (cmd : CommandId) (value : ℤ) (c : Channel) (w : World)
    → IsFree c
    → handled w (send_command cmd value (some c))
      ≡ (some (consumed (written cmd value c)), process cmd value w)
handled-written cmd value c w (m, h) =
    ap (handled w) (send_free cmd value c m)
    ∙ handler_pending (written cmd value c) w refl (omega (arith, h))

-- A command that is sent into a free channel is carried out with its value by the next call of the
-- handler, and the call after that does nothing.
pub handler-send :
    (cmd : CommandId) (value : ℤ) (c : Channel) (w : World)
    → IsFree c
    → let r = handled w (send_command cmd value (some c)) in
      (r.1 ≡ process cmd value w) × (task_command_handler r.0 r.1 ≡ r)
handler-send cmd value c w f =
    let q = handled-written cmd value c w f in
    (
      ap (λ r. r.1) q,
      subst (λ r. task_command_handler r.0 r.1 ≡ r) (sym q)
          (handler_consumed (written cmd value c) (process cmd value w)),
    )

-- Of two commands that are sent into a free channel before the handler runs only the second is carried
-- out: the next call of the handler takes the second and the call after that does nothing.
pub first_lost :
    (a b : CommandId) (x y : ℤ) (c : Channel) (w : World)
    → IsFree c
    → let r = handled w (then_send b y (send_command a x (some c))) in
      (r.1 ≡ process b y w) × (task_command_handler r.0 r.1 ≡ r)
first_lost a b x y c w (m, h) =
    subst
      (λ s.
        let r = handled w (then_send b y s) in
        (r.1 ≡ process b y w) × (task_command_handler r.0 r.1 ≡ r))
      (sym (send_free a x c m)) (handler-send b y (written a x c) w (refl, omega (arith, h)))

-- A target that is sent into a free channel is reached: after the next call of the handler, cycles of an
-- enabled controller bring the position there, if they are at least as many as it is away.
pub target-arrives :
    (value : ℤ) (c : Channel) (w : World) (d : Controller) (xs : List (ℤ × ℤ))
    (shared : Option Shared)
    → IsFree c
    → w.hal_data ≡ some d
    → d.enable_in ≡ true
    → distance d.current_pos value ≤ length xs
    → IsThere
        (record d { target_pos = value })
        (cycles xs (handled w (send_command set_target value (some c))).1.hal_data shared).0
unfolding process
target-arrives value c w d xs shared f q e h =
    subst (λ o. IsThere (record d { target_pos = value }) (cycles xs o shared).0)
      (sym (
        ap (λ r. r.1.hal_data) (handled-written set_target value c w f)
        ∙ ap (λ o. (process set_target value (record w { hal_data = o })).hal_data) q))
      (cycles-IsThere xs (record d { target_pos = value }) shared e h)
