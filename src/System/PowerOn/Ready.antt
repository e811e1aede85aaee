-- ===== src/System/PowerOn/Ready.antt =====
-- What the keys and `start` of Effect_Piano/Effect_Piano.cpp send, where the colours are those of a file.
use mathlib.Core.Path.{subst}
use effect_piano_light_contr.Base.{sym, refl, ℕ, ◌≡◌}
use effect_piano_light_contr.Base.Int.{ℤ}
use effect_piano_light_contr.Host.Palette.{Color}
use effect_piano_light_contr.Host.State.{Host}
use effect_piano_light_contr.System.{IsSent}
use effect_piano_light_contr.System.Start.{IsSendable, IsSentColor}
use effect_piano_light_contr.System.Mixing.{dimmed, difference}
use effect_piano_light_contr.System.Agrees.{Source, source, shades_of, HasKey, IsReady}

contrast_same :
    (bright : ℤ) {x y v w : Color}
    → x ≡ v
    → y ≡ w
    → IsSentColor (difference v (dimmed bright w))
    → IsSentColor (difference x (dimmed bright y))
contrast_same bright {x} {w = w} e f sent =
    subst (λ z. IsSentColor (difference x (dimmed bright z))) (sym f)
      (subst (λ z. IsSentColor (difference z (dimmed bright w))) (sym e) sent)

-- Colours that agree for the ten that have a key are as good.
pub recolored :
    {reach : ℕ} (s : Source) (f : ℤ → Color)
    → ((c : ℤ) → HasKey c → f c ≡ s.color c)
    → IsReady reach s
    → IsReady reach (record s { color = f })
recolored s f same r = record {
  quiet = r.quiet;
  slow = r.slow;
  few_sets = r.few_sets;
  lit = r.lit;
  extend = r.extend;
  few = r.few;
  remain = r.remain;
  front_key = r.front_key;
  back_key = r.back_key;
  color = λ k. subst IsSentColor (sym (same _ k)) (r.color k);
  back = λ k. subst (λ x. IsSentColor (dimmed s.bright x)) (sym (same _ k)) (r.back k);
  contrast = λ k l. contrast_same s.bright (same _ k) (same _ l) (r.contrast k l);
}

pub shades-recolored :
    (s : Source) (f : ℤ → Color)
    → ((c : ℤ) → HasKey c → f c ≡ s.color c)
    → HasKey s.front
    → HasKey s.back
    → shades_of (record s { color = f }) ≡ shades_of s
shades-recolored s f same kf kb = rw (same s.front kf, same s.back kb) refl

-- What `start` sends is among what the keys send, but for the brightness.
pub IsReady-IsSendable :
    {reach : ℕ} (h : Host)
    → IsReady reach (source h)
    → IsSent h.settings.brightness
    → IsSendable h.settings h.palette
IsReady-IsSendable h r bright = record {
  front = r.color r.front_key;
  back = λ on. r.back r.back_key;
  difference = λ on. r.contrast r.front_key r.back_key;
  remain = λ on. r.remain;
  extend = λ on. r.extend;
  bright = bright;
}
