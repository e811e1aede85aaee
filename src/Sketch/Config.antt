-- ===== src/Sketch/Config.antt =====
-- What the program of Effect_Piano/Effect_Piano.cpp sets up in the sketch of Effect_Piano_v1.3.0.ino.
use effect_piano_light_contr.Base.{ℕ, Bool}
use effect_piano_light_contr.Sketch.State.{Sketch}

pub record Config : Type 0 where
  pub red : ℕ
  pub green : ℕ
  pub blue : ℕ
  pub back_red : ℕ
  pub back_green : ℕ
  pub back_blue : ℕ
  pub circle_on : Bool
  pub ends_on : Bool
  pub brightness : ℕ
  pub extend : Bool
  pub extend_count : ℕ
  pub remain : Bool
  pub remain_time : ℕ
  pub background : Bool

abbrev pub config : Sketch → Config
config s = record {
  red = s.r;
  green = s.g;
  blue = s.b;
  back_red = s.br;
  back_green = s.bg;
  back_blue = s.bb;
  circle_on = s.flagc;
  ends_on = s.flagz;
  brightness = s.level;
  extend = s.extend;
  extend_count = s.numofextend;
  remain = s.rm_status;
  remain_time = s.rm_time;
  background = s.on_background;
}
