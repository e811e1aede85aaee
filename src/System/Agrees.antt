-- ===== src/System/Agrees.antt =====
-- The settings of Effect_Piano/Effect_Piano.cpp in step with the sketch of Effect_Piano_v1.3.0.ino,
-- and what a part of the program must do to keep them so.
use effect_piano_light_contr.Base.{
  ℕ, ◌≤◌, ◌<◌, ◌≡◌, ◌≢◌, refl, Bool, true, false, List, [], ◌∷◌, ◌++◌, append-nil, length, arith,
  ◌⊎◌,
}
use effect_piano_light_contr.Base.Int.{ℤ, pos, low_byte, is_zero, pos_part}
use effect_piano_light_contr.Host.Link.Fifo.{Holds, emits}
use effect_piano_light_contr.Host.Palette.{Color, get_bg_color}
use effect_piano_light_contr.Host.State.{Host}
use effect_piano_light_contr.Host.Lights.{mix}
use effect_piano_light_contr.Host.Lights.Wire.{Pushes, Pushes-trans, emits-append}
use effect_piano_light_contr.Sketch.State.{FastLed, Sketch}
use effect_piano_light_contr.Sketch.Serial.{bytes}
use effect_piano_light_contr.Sketch.Loop.{feed, ready}
use effect_piano_light_contr.Sketch.Steps.{stop, Steps-append, feed-Steps}
use effect_piano_light_contr.Sketch.Config.{Config, config}
use effect_piano_light_contr.System.{IsSent, Configures}
use effect_piano_light_contr.System.Start.{IsSentColor}
use effect_piano_light_contr.System.Mixing.{dimmed, difference, mixed_palette, Shines, IsBehind}

-- The settings that the sketch has to follow.
pub record Switches : Type 0 where
  pub on_circle : Bool
  pub on_ends : Bool
  pub brightness : ℤ
  pub on_extend : Bool
  pub num_extend : ℤ
  pub on_remain : Bool
  pub num_remain : ℤ
  pub on_background : Bool

abbrev pub switches : Host → Switches
switches h = record {
  on_circle = h.settings.on_circle;
  on_ends = h.settings.on_ends;
  brightness = h.settings.brightness;
  on_extend = h.settings.on_extend;
  num_extend = h.settings.num_extend;
  on_remain = h.settings.on_remain;
  num_remain = h.settings.num_remain;
  on_background = h.settings.on_background;
}

-- What the keys send arguments from.
pub record Source : Type 0 where
  pub color : ℤ → Color
  pub front : ℤ
  pub back : ℤ
  pub bright : ℤ
  pub num_extend : ℤ
  pub num_remain : ℤ
  pub latency : ℤ
  pub on_rainbow : Bool
  pub num_set : ℤ

abbrev pub source : Host → Source
source h = record {
  color = h.palette.color;
  front = h.settings.color_default;
  back = h.settings.color_background_default;
  bright = h.settings.bright_background;
  num_extend = h.settings.num_extend;
  num_remain = h.settings.num_remain;
  latency = h.settings.latency;
  on_rainbow = h.panel.on_rainbow;
  num_set = h.catalog.num_set;
}

-- The colours of the settings: that of the keys, and that of the background at its brightness
pub record Shades : Type 0 where
  pub front : Color
  pub behind : Color

abbrev pub shades_of : Source → Shades
shades_of s = record { front = s.color s.front; behind = dimmed s.bright (s.color s.back) }

abbrev pub shades : Host → Shades
shades h = shades_of (source h)

-- The sketch has the switches and the brightness of the settings, and, while they are on, the number
-- of the LEDs beside a key and the time that keys remain. While the background is on, it has the colour
-- that the settings name, and the keys have the difference of theirs to it. While it is off, the keys
-- have the colour that the settings name, or still the difference of it to the background from before.
pub record Agrees (s : Switches) (k : Shades) (c : Config) : Type 0 where
  pub circle : c.circle_on ≡ s.on_circle
  pub ends : c.ends_on ≡ s.on_ends
  pub brightness : c.brightness ≡ low_byte s.brightness
  pub extend : c.extend ≡ s.on_extend
  pub extend_count : s.on_extend ≡ true → c.extend_count ≡ low_byte s.num_extend
  pub remain : c.remain ≡ s.on_remain
  pub remain_time : s.on_remain ≡ true → c.remain_time ≡ low_byte s.num_remain
  pub background : c.background ≡ s.on_background
  pub back_lit : s.on_background ≡ true → IsBehind k.behind c
  pub keys_lit : s.on_background ≡ true → Shines (difference k.front k.behind) c
  pub keys_unlit :
      s.on_background ≡ false
      → Shines k.front c ⊎ ((d : Color) × IsBehind d c × Shines (difference k.front d) c)

-- The number of one of the ten colours that have a key
abbrev pub HasKey : ℤ → Type 0
HasKey c = (n : ℕ) × (n < 10) × (c ≡ pos n)

-- No rainbow is on, the latency and the brightness of the background are not 0, there are at most 6
-- presets, at most `reach` LEDs are asked for on each side of a key, and no argument that the keys send
-- is 0 as a byte, for the ten colours that have a key.
pub record IsReady (reach : ℕ) (s : Source) : Type 0 where
  pub quiet : s.on_rainbow ≡ false
  pub slow : s.latency ≢ pos 0
  pub few_sets : pos_part s.num_set ≤ 6
  pub lit : is_zero s.bright ≡ false
  pub extend : IsSent s.num_extend
  pub few : low_byte s.num_extend ≤ reach
  pub remain : IsSent s.num_remain
  pub front_key : HasKey s.front
  pub back_key : HasKey s.back
  pub color : {c : ℤ} → HasKey c → IsSentColor (s.color c)
  pub back : {c : ℤ} → HasKey c → IsSentColor (dimmed s.bright (s.color c))
  pub contrast :
      {c d : ℤ}
      → HasKey c
      → HasKey d
      → IsSentColor (difference (s.color c) (dimmed s.bright (s.color d)))

abbrev pub mixed_host : Host → Host
mixed_host h = record h {
  palette =
      mixed_palette h.settings.bright_background h.settings.color_default
        h.settings.color_background_default h.palette;
}

pub mix_lit :
    (h : Host) → is_zero h.settings.bright_background ≡ false → mix h ≡ (true, mixed_host h)
unfolding mix get_bg_color
mix_lit h e = rw e

pub nothing_goes : (h : Host) → Pushes 0 h.link h.link []
nothing_goes h = record { carry = λ ps w few held. stays ps w few held }
  where
    stays :
        (ps : List ℤ) (w : List ℕ)
        → length ps ≤ 0
        → Holds h.link ps w
        → Holds h.link [] (w ++ emits (ps ++ []))
    stays [] w few held = rw append-nil held
    stays (x ∷ ps) w few held = absurd (omega arith)

module _ (lib : FastLed) (reach : ℕ) where
  -- From `h` to `h'` the program pushes ints that take a sketch in step with `h` to one in step with
  -- `h'`.
  pub record Moves (h h' : Host) : Type 0 where
    pub ints : List ℤ
    pub pushes : Pushes 0 h.link h'.link ints
    pub ready : IsReady reach (source h) → IsReady reach (source h')
    pub answer :
        (t : Sketch)
        → IsReady reach (source h)
        → Agrees (switches h) (shades h) (config t)
        → (c : Config) × Configures lib t ints c × Agrees (switches h') (shades h') c

  pub rests : (h : Host) → Moves h h
  rests h = record {
    ints = [];
    pushes = nothing_goes h;
    ready = λ r. r;
    answer = λ t r a. (config t, record { after = t; steps = stop t; set = refl }, a);
  }

  pub Moves-trans : {g h i : Host} → Moves g h → Moves h i → Moves g i
  Moves-trans m n = record {
    ints = m.ints ++ n.ints;
    pushes = Pushes-trans m.pushes n.pushes;
    ready = λ r. n.ready (m.ready r);
    answer = λ t r a.
        let (c, p, b) = m.answer t r a in
        let (d, q, e) = n.answer p.after (m.ready r) (rw (p.set) b) in
        (
          d,
          record {
            after = q.after;
            steps = rw (emits-append m.ints n.ints) (Steps-append lib p.steps q.steps);
            set = q.set;
          },
          e,
        );
  }

  -- What goes out, and what the sketch makes of it.
  pub follows :
      {h g : Host} (m : Moves h g) (t : Sketch) {w : List ℕ}
      → Holds h.link [] w
      → IsReady reach (source h)
      → Agrees (switches h) (shades h) (config t)
      → (out : List ℕ) × (u : Sketch) × Holds g.link [] (w ++ out)
        × ((fuel : ℕ) → length out ≤ fuel → feed lib fuel t (bytes out) ≡ ready u)
        × Agrees (switches g) (shades g) (config u)
  follows m t {w} held r a =
      let (c, p, b) = m.answer t r a in
      (
        emits m.ints,
        p.after,
        m.pushes.carry [] w (omega arith) held,
        λ fuel enough. feed-Steps lib fuel enough p.steps,
        rw (p.set) b,
      )
