-- ===== src/Host/Midi/Timer.antt =====
-- The timer of the fading in the main loop of Effect_Piano/Effect_Piano.cpp.
use mathlib.Core.Path.{subst}
use effect_piano_light_contr.Base.{
  ap, ◌∙◌, sym, ℕ, zero, suc, ◌+◌, ◌*◌, ◌≤◌, ◌<◌, ◌≡◌, refl, Bool, true, false, [], ◌∷◌, none,
  if◌then◌else◌, arith,
}
use effect_piano_light_contr.Base.Int.{ℤ, pos, ◌+ℤ◌, leb_ℤ}
use effect_piano_light_contr.Host.Link
use effect_piano_light_contr.Host.Link.{Link}
use effect_piano_light_contr.Host.State.{Host}
use effect_piano_light_contr.Host.Midi.{on_poll, on_timer, cool_down, round_end}

-- `n` rounds of the main loop, behind its keys, with no message
abbrev pub quiet_rounds : ℕ → Host → Host
quiet_rounds zero h = h
quiet_rounds (suc n) h = quiet_rounds n (round_end none h)

-- Keys remain, 100 is sent every `t` rounds, `j` of them are over, and the queue is `l`.
record IsTicking (t j : ℕ) (l : Link) (h : Host) : Type 0 where
  link : h.link ≡ l
  timer : h.panel.rm_timer ≡ pos j
  times : h.panel.rm_times ≡ pos t
  remains : h.settings.on_remain ≡ true
  dark : h.panel.contain_rainbow ≡ false

timer_early : {t j : ℕ} {a b : ℤ} → a ≡ pos t → b ≡ pos j → j + 1 < t → leb_ℤ a (b +ℤ pos 1) ≡ false
unfolding ◌+ℤ◌
timer_early e f h = rw (e, f) (ground arith)

timer_due : {t j : ℕ} {a b : ℤ} → a ≡ pos t → b ≡ pos j → t ≤ j + 1 → leb_ℤ a (b +ℤ pos 1) ≡ true
unfolding ◌+ℤ◌
timer_due e f h = rw (e, f) (ground arith)

timer_next : {j : ℕ} {b : ℤ} → b ≡ pos j → b +ℤ pos 1 ≡ pos (j + 1)
unfolding ◌+ℤ◌
timer_next e = rw e (ground arith)

no_due :
    {a b c : Bool} (v w x y : Host)
    → a ≡ false
    → b ≡ true
    → c ≡ false
    → (if a then v else if b then (if c then w else x) else y) ≡ x
no_due v w x y e f g = rw (e, f, g)

due :
    {a b c : Bool} (v w x y : Host)
    → a ≡ false
    → b ≡ true
    → c ≡ true
    → (if a then v else if b then (if c then w else x) else y) ≡ w
due v w x y e f g = rw (e, f, g)

tick :
    {t j : ℕ} {l : Link} {h : Host}
    → IsTicking t j l h
    → j + 1 < t
    → IsTicking t (j + 1) l (round_end none h)
unfolding round_end cool_down on_poll on_timer
tick {t} {j} {l} v few =
    subst (IsTicking t (j + 1) l)
      (sym (no_due _ _ _ _ v.dark v.remains (timer_early v.times v.timer few)))
      (record {
        link = v.link;
        timer = timer_next v.timer;
        times = v.times;
        remains = v.remains;
        dark = v.dark;
      })

tock :
    {t j : ℕ} {l : Link} {h : Host}
    → IsTicking t j l h
    → t ≤ j + 1
    → IsTicking t 0 (Link.send (pos 100 ∷ []) l) (round_end none h)
unfolding round_end cool_down on_poll on_timer
tock {t} {j} {l} v full =
    subst (IsTicking t 0 (Link.send (pos 100 ∷ []) l))
      (sym (due _ _ _ _ v.dark v.remains (timer_due v.times v.timer full)))
      (record {
        link = ap (Link.send (pos 100 ∷ [])) v.link;
        timer = refl;
        times = v.times;
        remains = v.remains;
        dark = v.dark;
      })

ticks :
    {t : ℕ} (n j : ℕ) {l : Link} {h : Host}
    → IsTicking t j l h
    → j + n < t
    → IsTicking t (j + n) l (quiet_rounds n h)
ticks {t} zero j {l} {h} v few = subst (λ i. IsTicking t i l h) (omega arith) v
ticks {t} (suc n) j {l} {h} v few =
    subst (λ i. IsTicking t i l (quiet_rounds n (round_end none h))) (omega arith)
      (ticks n (j + 1) (tick v (omega arith)) (omega arith))

quiet_rounds-append :
    (m n : ℕ) (h : Host) → quiet_rounds (m + n) h ≡ quiet_rounds n (quiet_rounds m h)
quiet_rounds-append zero n h = let e : 0 + n ≡ n = omega arith in ap (λ k. quiet_rounds k h) e
quiet_rounds-append (suc m) n h =
    let e : suc m + n ≡ suc (m + n) = omega arith in
    ap (λ k. quiet_rounds k h) e ∙ quiet_rounds-append m n (round_end none h)

-- A whole period ends with a 100.
period :
    (t : ℕ) {l : Link} {h : Host}
    → IsTicking (suc t) 0 l h
    → IsTicking (suc t) 0 (Link.send (pos 100 ∷ []) l) (quiet_rounds (suc t) h)
period t {l} {h} v =
    let e : t + 1 ≡ suc t = omega arith in
    subst (λ n. IsTicking (suc t) 0 (Link.send (pos 100 ∷ []) l) (quiet_rounds n h)) e
      (subst (IsTicking (suc t) 0 (Link.send (pos 100 ∷ []) l)) (sym (quiet_rounds-append t 1 h))
        (tock (ticks t 0 v (omega arith)) (omega arith)))

-- The queue after so many times `pta (100); push ();`
abbrev pub fades_sent : ℕ → Link → Link
fades_sent zero l = l
fades_sent (suc p) l = fades_sent p (Link.send (pos 100 ∷ []) l)

periods :
    (t p : ℕ) {l : Link} {h : Host}
    → IsTicking (suc t) 0 l h
    → IsTicking (suc t) 0 (fades_sent p l) (quiet_rounds (p * suc t) h)
periods t zero {l} {h} v =
    let e : 0 ≡ 0 * suc t = omega arith in subst (λ n. IsTicking (suc t) 0 l (quiet_rounds n h)) e v
periods t (suc p) {l} {h} v =
    let e : suc t + p * suc t ≡ suc p * suc t = omega arith in
    subst (IsTicking (suc t) 0 (fades_sent p (Link.send (pos 100 ∷ []) l)))
      (sym (quiet_rounds-append (suc t) (p * suc t) h) ∙ ap (λ k. quiet_rounds k h) e)
      (periods t p (period t v))

-- While keys remain, no rainbow is contained, `rm_times` is above 0, the timer is at 0 and no message
-- comes: after p times `rm_times` rounds of the main loop, behind its keys, and n more, fewer than
-- `rm_times`, the program has sent 100 exactly p times and nothing else, and the timer is at n.
pub timer_period :
    (t p n : ℕ) (h : Host)
    → h.settings.on_remain ≡ true
    → h.panel.contain_rainbow ≡ false
    → h.panel.rm_times ≡ pos (suc t)
    → h.panel.rm_timer ≡ pos 0
    → n ≤ t
    → ((quiet_rounds (p * suc t + n) h).link ≡ fades_sent p h.link)
      × ((quiet_rounds (p * suc t + n) h).panel.rm_timer ≡ pos n)
timer_period t p n h remains dark times timer few =
    let start : IsTicking (suc t) 0 h.link h = record {
      link = refl;
      timer = timer;
      times = times;
      remains = remains;
      dark = dark;
    } in
    let v =
      subst (IsTicking (suc t) (0 + n) (fades_sent p h.link))
        (sym (quiet_rounds-append (p * suc t) n h)) (ticks n 0 (periods t p start) (omega arith)) in
    let e : 0 + n ≡ n = omega arith in (v.link, v.timer ∙ ap pos e)
