-- ===== src/Router/Waiting/Hearing.antt =====
-- src/adapt_ipc.c: the loop of `producer_ensure_shm`, round by round.
use adaptipc.Base.{
  ℕ, zero, suc, ◌+◌, ◌≤◌, ◌<◌, ◌≡◌, ◌≢◌, refl, ◌∙◌, Bool, true, false, Option, none, some, List, [],
  ◌∷◌, arith, length, All, ltb, leb, ◌==◌, if◌then◌else◌, add64, sub64,
}
use adaptipc.Base.Errno.{Rc, done, fail}
use adaptipc.World.{World, M, ◌>>=◌, return, now_ns}
use adaptipc.World.Post.{>>=-run}
use adaptipc.Uds as Uds
use adaptipc.Router.Types.{Ctx, now_if}
use adaptipc.Router.Negotiate.{is_ack, producer_map_ring, after_map, heard, await_ack, poll_ms}
use adaptipc.Router.Waiting.{
  Beat, silence, chatter, Ending, late, broken, acked, readings, GoesOn, IsEnd, Verdict, answering,
  is_ack-false, heard_silence, heard_failure, heard_frame,
}

module _ {D : Type 0} where
  -- A round without counters.
  round :
      (fuel deadline : ℕ) (c : Ctx D) (w w' : World) (got : Rc × List ℕ)
      → c.stats_on ≡ false
      → Uds.recv_timeout c.rxbuf_cap poll_ms w ≡ some (got, w')
      → await_ack (suc fuel) deadline c w ≡ heard (await_ack fuel deadline) deadline c got w'
  unfolding await_ack
  round fuel deadline c w w' got off e = by_count c.stats_on off
    where
      by_count :
          (on : Bool)
          → on ≡ false
          → (now_if on >>= λ t0. Uds.recv_timeout c.rxbuf_cap poll_ms >>= λ got. now_if on >>= λ t1.
                heard
                  (await_ack fuel deadline)
                  deadline
                  (if on
                    then record c {
                      st = record c.st { negot_wait_ns = add64 c.st.negot_wait_ns (sub64 t1 t0) };
                    }
                    else c)
                  got)
              w
            ≡ heard (await_ack fuel deadline) deadline c got w'
      by_count true h = absurd (ground arith)
      by_count false h =
          >>=-run (Uds.recv_timeout c.rxbuf_cap poll_ms)
            (λ got. heard (await_ack fuel deadline) deadline c got) e

  heard_still :
      (again : Ctx D → M (Rc × Ctx D)) (deadline t : ℕ) (c : Ctx D) (ts : List ℕ) (w : World)
      → t ≤ deadline
      → heard again deadline c (fail 11, []) (record w { clock = t ∷ ts })
        ≡ again c (record w { clock = ts })
  unfolding heard now_ns
  heard_still again deadline t c ts w h = let b : ltb deadline t ≡ false = ground arith in rw b refl

  heard_late :
      (again : Ctx D → M (Rc × Ctx D)) (deadline t : ℕ) (c : Ctx D) (ts : List ℕ) (w : World)
      → deadline < t
      → heard again deadline c (fail 11, []) (record w { clock = t ∷ ts })
        ≡ some ((fail 110, c), record w { clock = ts })
  unfolding heard now_ns
  heard_late again deadline t c ts w h = let b : ltb deadline t ≡ true = ground arith in rw b refl

  heard_broken :
      (again : Ctx D → M (Rc × Ctx D)) (deadline e : ℕ) (c : Ctx D) (w : World)
      → e ≢ 11
      → heard again deadline c (fail e, []) w ≡ some ((fail e, c), w)
  unfolding heard
  heard_broken again deadline e c w h = let b : (e == 11) ≡ false = ground arith in rw b refl

  heard_chatter :
      (again : Ctx D → M (Rc × Ctx D)) (deadline n : ℕ) (frame : List ℕ) (c : Ctx D) (w : World)
      → is_ack frame ≡ false
      → heard again deadline c (done n, frame) w ≡ again c w
  unfolding heard
  heard_chatter again deadline n frame c w h = rw h refl

  heard_ack :
      (again : Ctx D → M (Rc × Ctx D)) (deadline n : ℕ) (more : List ℕ) (c : Ctx D) (w : World)
      → c.stats_on ≡ false
      → Verdict (acked more) c w (heard again deadline c (done n, 0 ∷ 2 ∷ 0 ∷ more) w)
  unfolding heard after_map
  heard_ack again deadline n more c w off =
      let long : leb 3 (suc (suc (suc (length more)))) ≡ true = ground arith in
      rw long (by_count c.stats_on off)
    where
      by_map :
          (o : Option ((Rc × Ctx D) × World))
          → (elim o as (λ o. Option ((Rc × Ctx D) × World)) [
            | none ↦ none
            | some (a, w') ↦ some (after_map a, w')
          ])
            ≡ (elim o as (λ o. Option ((Rc × Ctx D) × World)) [
              | none ↦ none
              | some ((fail e, c'), w') ↦ some ((fail e, c'), w')
              | some ((done n, c'), w') ↦ some ((done 0, record c' { negot_done = true }), w')
            ])
      by_map none = refl
      by_map (some ((fail e, c'), w')) = refl
      by_map (some ((done n, c'), w')) = refl

      by_count :
          (on : Bool)
          → on ≡ false
          → (producer_map_ring (
                  if on
                  then record c {
                    st = record c.st { shm_setup_acks = add64 c.st.shm_setup_acks 1 };
                  }
                  else c)
                >>= λ mapped. return (after_map mapped))
              w
            ≡ (elim (producer_map_ring c w) as (λ o. Option ((Rc × Ctx D) × World)) [
              | none ↦ none
              | some ((fail e, c'), w') ↦ some ((fail e, c'), w')
              | some ((done n, c'), w') ↦ some ((done 0, record c' { negot_done = true }), w')
            ])
      by_count true h = absurd (ground arith)
      by_count false h = by_map (producer_map_ring c w)

  pub awaited :
      (beats : List Beat) (last : Ending) (fuel deadline : ℕ) (c : Ctx D) (w : World) (ps : List Rc)
      (ts : List ℕ) (ds : List (Rc × List ℕ))
      → c.stats_on ≡ false
      → 0 < c.rxbuf_cap
      → All (GoesOn deadline c.rxbuf_cap) beats
      → IsEnd deadline c.rxbuf_cap last
      → length beats < fuel
      → Verdict last c
          (record w { poll = ps; clock = ts; recvfrom = ds })
          (await_ack fuel deadline c (answering beats last ps ts ds w))
  awaited beats last zero deadline c w ps ts ds off room on ends enough = absurd (omega arith)
  awaited [] (late t) (suc fuel) deadline c w ps ts ds off room on ends enough =
      let v = record w { clock = t ∷ ts; recvfrom = ds } in
      round fuel deadline c (record v { poll = done 0 ∷ ps }) (record v { poll = ps }) (fail 11, [])
        off (heard_silence c.rxbuf_cap ps v room)
      ∙ heard_late (await_ack fuel deadline) deadline t c ts (record v { poll = ps }) ends
  awaited [] (broken e) (suc fuel) deadline c w ps ts ds off room on (other, no_again) enough =
      let v = record w { clock = ts; recvfrom = ds } in
      round fuel deadline c (record v { poll = fail e ∷ ps }) (record v { poll = ps }) (fail e, [])
        off (heard_failure c.rxbuf_cap e ps v room other)
      ∙ heard_broken (await_ack fuel deadline) deadline e c (record v { poll = ps }) no_again
  awaited [] (acked more) (suc fuel) deadline c w ps ts ds off room on fits enough =
      let v = record w { clock = ts } in
      let n = 3 + length more in
      let frame = 0 ∷ 2 ∷ 0 ∷ more in
      round fuel deadline c (record v { poll = done 1 ∷ ps; recvfrom = (done n, frame) ∷ ds })
        (record v { poll = ps; recvfrom = ds }) (done (length frame), frame) off
        (heard_frame c.rxbuf_cap n frame ps ds v (omega arith) (omega (arith, fits)))
      ∙ heard_ack (await_ack fuel deadline) deadline (length frame) more c
          (record v { poll = ps; recvfrom = ds }) off
  awaited (silence t ∷ beats) last (suc fuel) deadline c w ps ts ds off room (early, on) ends
        enough =
      let v = answering beats last ps ts ds w in
      let u = record v { clock = t ∷ readings beats last ts } in
      rw
        (round fuel deadline c (record u { poll = done 0 ∷ v.poll }) u (fail 11, []) off
            (heard_silence c.rxbuf_cap v.poll u room)
          ∙ heard_still (await_ack fuel deadline) deadline t c v.clock u early)
        (awaited beats last fuel deadline c w ps ts ds off room on ends (omega arith))
  awaited (chatter frame ∷ beats) last (suc fuel) deadline c w ps ts ds off room
        ((some_bytes, fits, no_ack), on) ends enough =
      let v = answering beats last ps ts ds w in
      let n = length frame in
      rw
        (round fuel deadline c
            (record v { poll = done 1 ∷ v.poll; recvfrom = (done n, frame) ∷ v.recvfrom }) v
            (done n, frame) off
            (heard_frame c.rxbuf_cap n frame v.poll v.recvfrom v some_bytes fits)
          ∙ heard_chatter (await_ack fuel deadline) deadline n frame c v
              (is_ack-false frame no_ack))
        (awaited beats last fuel deadline c w ps ts ds off room on ends (omega arith))
