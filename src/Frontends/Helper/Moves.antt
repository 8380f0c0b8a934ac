-- ===== src/Frontends/Helper/Moves.antt =====
-- What a move of the front end makes the controller do.
use mpmt_test_stand.Prelude.{
  ℕ, ◌≡◌, ◌↔◌, refl, ap, ◌∙◌, Bool, true, false, Option, none, some, arith, ◌&&◌, sub32, Bool-cases,
  inl, inr,
}
use mpmt_test_stand.Shared.{
  AxisDirection, AxisId, axis_x, axis_y, PositionMsgData, msg_receive_timeout_ms,
}
use mpmt_test_stand.Serial.{SerialResult, serial_ok}
use mpmt_test_stand.Serial.Device.{SerialDevice}
use mpmt_test_stand.Serial.Exec.{TestStandComm, Exec, pure, ◌>>=◌, bind-inv, bind-some}
use mpmt_test_stand.Serial.Host
use mpmt_test_stand.Frontends.{Arith}
use mpmt_test_stand.Frontends.Helper.Course.{
  IsWithinLimits, validate_move_params-true, Leads, get_direction-Leads, Leads-unique,
}
use mpmt_test_stand.Frontends.Helper.{
  get_direction, abs32, handle_serial_result, handle_axis_result, handle_move_result, reply_of,
  validate_move_params, mm_to_cts, mm_to_steps, move_axis, move_from, arduino_move,
}

handle_move_result-true :
    (res : SerialResult) (axis_res : Option ℕ)
    → handle_move_result (res, axis_res) ≡ true
    → (res ≡ serial_ok) × (axis_res ≡ some 0)
unfolding handle_move_result handle_serial_result handle_axis_result
handle_move_result-true serial_ok (some n) e =
    let zero : n ≡ 0 = ground arith in (refl, ap some zero)
handle_move_result-true _ (some n) e = cc
handle_move_result-true res none e = cc

reply_of-some :
    {A : Type 0} (res : SerialResult) (reply : Option A) (a : A)
    → reply_of (res, reply) ≡ some a
    → (res ≡ serial_ok) × (reply ≡ some a)
unfolding reply_of
reply_of-some serial_ok reply a e = (refl, e)
reply_of-some _ reply a e = cc

pair_lem : {A B : Type 0} {a a' : A} {b b' : B} → a ≡ a' → b ≡ b' → ◌≡◌ {A = A × B} (a, b) (a', b')
pair_lem e e' = rw e (rw e' refl)

both_true :
    {S : Type 0} (x y : Bool) (s s' : S)
    → pure (x && y) s ≡ some (true, s')
    → (x ≡ true) × (y ≡ true) × (s ≡ s')
both_true true true s s' e = (refl, refl, cc)
both_true true false s s' e = cc
both_true false y s s' e = cc

module _ {F G D : Type 0} (fl : Arith F G) (dev : SerialDevice D) (rounds bytes : ℕ) where
  -- The controller accepts the command of an axis that leads from a position to a destination.
  abbrev pub Accepted : F → AxisId → ℕ → F → F → TestStandComm D → TestStandComm D → Type 0
  Accepted pulley_dia axis cur dest vel c c' =
      (dir : AxisDirection) × (dist : ℕ) × Leads cur (mm_to_cts fl pulley_dia dest) dir dist
      × (Host.move dev rounds bytes axis dir (mm_to_steps fl pulley_dia vel) dist
            msg_receive_timeout_ms c
          ≡ some ((serial_ok, some 0), c'))

  move_axis-true :
      (pulley_dia : F) (axis : AxisId) (cur : ℕ) (dest vel : F) (c c' : TestStandComm D)
      → (move_axis fl dev rounds bytes pulley_dia axis cur dest vel c ≡ some (true, c'))
        ↔ Accepted pulley_dia axis cur dest vel c c'
  unfolding move_axis handle_move_result handle_serial_result handle_axis_result
  move_axis-true pulley_dia axis cur dest vel c c' =
      let target = mm_to_cts fl pulley_dia dest in
      let dir = get_direction (sub32 target cur) in
      let dist = abs32 (sub32 target cur) in
      let send : AxisDirection → ℕ → Exec (TestStandComm D) (SerialResult × Option ℕ) = λ dir dist.
        Host.move dev rounds bytes axis dir (mm_to_steps fl pulley_dia vel) dist
          msg_receive_timeout_ms in
      (
        λ e.
            (let ((res, axis_res), c1, sent, rest) =
                bind-inv (send dir dist) (λ reply. pure (handle_move_result reply)) c (true, c')
                  e in
              let moved : handle_move_result (res, axis_res) ≡ true = cc in
              let last : c1 ≡ c' = cc in
              let (ok, accepted) = handle_move_result-true res axis_res moved in
              (
                dir,
                dist,
                get_direction-Leads cur target,
                sent
                    ∙ ap (λ r. some (r, c1)) (pair_lem ok accepted)
                    ∙ ap (λ d. some ((serial_ok, some 0), d)) last,
              )),
        λ (dir', dist', leads, sent).
            (let (same_dir, same_dist) = Leads-unique cur target dir' dist' leads in
              bind-some (send dir dist) (λ reply. pure (handle_move_result reply))
                (ap (λ a. send a dist c) same_dir ∙ ap (λ n. send dir' n c) same_dist ∙ sent)),
      )

  moves_both :
      (pulley_dia : F) (dest_mm vel_mm_s : F × F) (pos : PositionMsgData) (c c' : TestStandComm D)
      → (move_from fl dev rounds bytes pulley_dia dest_mm vel_mm_s (some pos) c ≡ some (true, c'))
        ↔ ((mid : TestStandComm D) × Accepted pulley_dia axis_x pos.x_counts dest_mm.0 vel_mm_s.0 c
              mid
            × Accepted pulley_dia axis_y pos.y_counts dest_mm.1 vel_mm_s.1 mid c')
  unfolding move_from
  moves_both pulley_dia dest_mm vel_mm_s pos c c' =
      let x = move_axis fl dev rounds bytes pulley_dia axis_x pos.x_counts dest_mm.0 vel_mm_s.0 in
      let y = move_axis fl dev rounds bytes pulley_dia axis_y pos.y_counts dest_mm.1 vel_mm_s.1 in
      let both : Bool → Exec (TestStandComm D) Bool =
        λ moved_x. y >>= λ moved_y. pure (moved_x && moved_y) in
      (
        λ e.
            (let (moved_x, mid, ex, rest) = bind-inv x both c (true, c') e in
              let (moved_y, last, ey, end) =
                bind-inv y (λ moved_y. pure (moved_x && moved_y)) mid (true, c') rest in
              let (xt, yt, same) = both_true moved_x moved_y last c' end in
              (
                mid,
                (move_axis-true pulley_dia axis_x pos.x_counts dest_mm.0 vel_mm_s.0 c mid).0
                    (rw xt at ex),
                (move_axis-true pulley_dia axis_y pos.y_counts dest_mm.1 vel_mm_s.1 mid c').0
                    (rw same at (rw yt at ey)),
              )),
        λ (mid, ax, ay).
            bind-some x both
              ((move_axis-true pulley_dia axis_x pos.x_counts dest_mm.0 vel_mm_s.0 c mid).1 ax)
            ∙ bind-some y (λ moved_y. pure (true && moved_y))
                ((move_axis-true pulley_dia axis_y pos.y_counts dest_mm.1 vel_mm_s.1 mid c').1 ay),
      )

  move_from-true :
      (pulley_dia : F) (dest_mm vel_mm_s : F × F) (res : SerialResult)
      (reply : Option PositionMsgData) (c c' : TestStandComm D)
      → move_from fl dev rounds bytes pulley_dia dest_mm vel_mm_s (reply_of (res, reply)) c
        ≡ some (true, c')
      → (pos : PositionMsgData) × (mid : TestStandComm D) × (◌≡◌
          {A = SerialResult × Option PositionMsgData}
          (res, reply)
          (serial_ok, some pos))
        × Accepted pulley_dia axis_x pos.x_counts dest_mm.0 vel_mm_s.0 c mid
        × Accepted pulley_dia axis_y pos.y_counts dest_mm.1 vel_mm_s.1 mid c'
  unfolding move_from reply_of
  move_from-true pulley_dia dest_mm vel_mm_s serial_ok (some pos) c c' e =
      let (mid, x, y) = (moves_both pulley_dia dest_mm vel_mm_s pos c c').0 e in
      (pos, mid, refl, x, y)
  move_from-true pulley_dia dest_mm vel_mm_s serial_ok none c c' e = cc
  move_from-true pulley_dia dest_mm vel_mm_s _ reply c c' e = cc

  -- arduino_move reports success exactly if no coordinate of the destination is below 0 or above
  -- 1200 mm and no velocity below 0 or above 50 mm/s, the current position was received, and the
  -- controller then accepted a move of the x-axis and after it one of the y-axis, each with the
  -- velocity asked for, and with a direction and a distance of at most 2 ^ 31 counts that lead
  -- from the received position to the counts of the destination.
  pub arduino_move-true :
      (pulley_dia : F) (dest_mm vel_mm_s : F × F) (c c' : TestStandComm D)
      → (arduino_move fl dev rounds bytes pulley_dia dest_mm vel_mm_s c ≡ some (true, c')) ↔ (
          IsWithinLimits fl dest_mm vel_mm_s
          × (pos : PositionMsgData) × (c1 : TestStandComm D) × (c2 : TestStandComm D)
          × (Host.get_position dev rounds bytes msg_receive_timeout_ms c
              ≡ some ((serial_ok, some pos), c1))
          × Accepted pulley_dia axis_x pos.x_counts dest_mm.0 vel_mm_s.0 c1 c2
          × Accepted pulley_dia axis_y pos.y_counts dest_mm.1 vel_mm_s.1 c2 c')
  unfolding arduino_move reply_of
  arduino_move-true pulley_dia dest_mm vel_mm_s c c' =
      let ask = Host.get_position dev rounds bytes msg_receive_timeout_ms in
      let go : SerialResult × Option PositionMsgData → Exec (TestStandComm D) Bool =
        λ reply. move_from fl dev rounds bytes pulley_dia dest_mm vel_mm_s (reply_of reply) in
      let limits = validate_move_params-true fl dest_mm vel_mm_s in
      elim (Bool-cases (validate_move_params fl dest_mm vel_mm_s)) [
        | inl valid ↦ (
          λ e.
              (let (reply, c1, asked, rest) = bind-inv ask go c (true, c') (rw valid at e) in
                let (pos, c2, ok, x, y) =
                  move_from-true pulley_dia dest_mm vel_mm_s reply.0 reply.1 c1 c' rest in
                (limits.0 valid, pos, c1, c2, asked ∙ ap (λ r. some (r, c1)) ok, x, y)),
          λ (_, pos, c1, c2, asked, x, y). rw valid (
              bind-some ask go asked
              ∙ (moves_both pulley_dia dest_mm vel_mm_s pos c1 c').1 (c2, x, y)),
        )
        | inr invalid ↦ (
          λ e. (let no = rw invalid at e in cc),
          λ (within, _, _, _, _, _, _). (let valid = limits.1 within in cc),
        )
      ]
