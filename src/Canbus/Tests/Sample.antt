-- ===== src/Canbus/Tests/Sample.antt =====
-- A small platform for the CAN domain: a Lua stack, two buses and a work item that stops at once.
use eerie_leap_rt.Common.{
  ℕ, suc, ◌+◌, ◌≡◌, refl, Bool, true, false, Option, none, some, List, [], ◌∷◌, codes, length, ltb,
  if◌then◌else◌, returns, arith,
}
use eerie_leap_rt.Canbus.Platform.{Platform}
use eerie_leap_rt.Canbus.Script.Stack.{LuaStack}
use eerie_leap_rt.Canbus.Scheduler.Pause.{Stops}

pub data Value : Type 0 where
  function : Value
  number : ℕ → Value
  text : List ℕ → Value

-- What a call of the Lua function does.
pub data Behaviour : Type 0 where
  answers fails refuses : Behaviour

pub record Bench : Type 0 where
  pub stack : List Value
  pub behaviour : Behaviour
  pub frames : List (ℕ × List ℕ)
  pub running : Bool

abbrev push : Value → Bench → Bench
push v w = record w { stack = v ∷ w.stack }

abbrev first_function : List Value → Bool
first_function (function ∷ vs) = true
first_function (number n ∷ vs) = false
first_function (text t ∷ vs) = false
first_function [] = false

abbrev text_of : List Value → Option (List ℕ)
text_of (function ∷ vs) = none
text_of (number n ∷ vs) = some (48 ∷ [])
text_of (text t ∷ vs) = some t
text_of [] = none

abbrev is_some : Option (List ℕ) → Bool
is_some none = false
is_some (some t) = true

abbrev rest : List Value → List Value
rest [] = []
rest (v ∷ vs) = vs

abbrev called : Behaviour → List Value → Bool × List Value
called answers vs = (true, text (7 ∷ 0 ∷ []) ∷ rest (rest (rest vs)))
called fails vs = (false, text (codes "oops") ∷ rest (rest (rest vs)))
called refuses vs = (true, function ∷ rest (rest (rest vs)))

abbrev pcall : Bench → Bool × Bench
pcall w = ((called w.behaviour w.stack).0, record w { stack = (called w.behaviour w.stack).1 })

-- The messages are an id, an interval and a script; the two first channels have a bus.
abbrev pub bench : Platform
bench = record {
  World = Bench;
  Config = List (ℕ × List (ℕ × Option ℕ × Option (Unit {0})));
  Message = ℕ × Option ℕ × Option (Unit {0});
  Script = Unit {0};
  frame_id = λ m. m.0;
  send_interval_ms = λ m. m.1;
  lua_script = λ m. m.2;
  channel_configurations = λ k. some k;
  Canbus = ℕ;
  Channel = ℕ;
  Dbc = ℕ;
  DbcMessage = ℕ;
  get_canbus = λ k b. if ltb b 2 then some b else none;
  get_channel_configuration = λ k b. returns (some b);
  dbc = λ b. some b;
  has_message = λ d id. ltb id 200;
  get_message = λ d id. returns (some id);
  is_valid = λ c w. true;
  send_frame = λ c id bytes w. (returns tt, record w { frames = (id, bytes) ∷ w.frames });
  Float = ℕ;
  float_zero = 0;
  try_get_reading_value = λ h w. if ltb h 1 then some 5 else none;
  encode_message = λ m value w. (returns (value 0 ∷ value 1 ∷ []), w);
  clear_readings = λ w. w;
  register_get_sensor_value = λ s w. w;
  register_update_sensor_value = λ s w. w;
  LuaState = Unit {0};
  get_state = λ s w. some tt;
  lua_getglobal = λ l name w. push function w;
  lua_isfunction = λ l w. first_function w.stack;
  lua_isstring = λ l w. is_some (text_of w.stack);
  lua_pop = λ l w. record w { stack = rest w.stack };
  lua_pushinteger = λ l n w. push (number n) w;
  lua_pushlstring = λ l bytes w. push (text bytes) w;
  lua_pcall = λ l w. pcall w;
  lua_tolstring = λ l w. (text_of w.stack, w);
  Handle = Unit {0};
  create_work_item = λ interval b m c w. (tt, w);
  schedule = λ h w. record w { running = true };
  cancel = λ h w. (w.running, w);
  sleep = λ ms w. record w { running = false };
}

pub length-rest : (vs : List Value) (n : ℕ) → length vs ≡ suc n → length (rest vs) ≡ n
length-rest [] n h = absurd (omega arith)
length-rest (v ∷ vs) n h = omega arith

pub length-called :
    (b : Behaviour) (vs : List Value) (n : ℕ) → length vs ≡ n + 3 → length (called b vs).1 ≡ suc n
length-called b [] n h = absurd (omega arith)
length-called b (u ∷ []) n h = absurd (omega arith)
length-called b (u ∷ v ∷ []) n h = absurd (omega arith)
length-called answers (u ∷ v ∷ x ∷ vs) n h = omega arith
length-called fails (u ∷ v ∷ x ∷ vs) n h = omega arith
length-called refuses (u ∷ v ∷ x ∷ vs) n h = omega arith

pub text_lem : (o : Option (List ℕ)) → is_some o ≡ true → (t : List ℕ) × (o ≡ some t)
text_lem none h = absurd cc
text_lem (some t) h = (t, refl)

pub empty_lem : (vs : List Value) → length vs ≡ 0 → text_of vs ≡ none
empty_lem [] h = refl
empty_lem (v ∷ vs) h = absurd (omega arith)

unfoldable pub bench-LuaStack : LuaStack bench
bench-LuaStack = record {
  depth = λ l w. length w.stack;
  getglobal_depth = λ l name w. refl;
  pushinteger_depth = λ l n w. refl;
  pushlstring_depth = λ l b w. refl;
  pop_depth = λ l w n h. length-rest w.stack n h;
  pcall_depth = λ l w n h. length-called w.behaviour w.stack n h;
  tolstring_depth = λ l w. refl;
  tolstring_isstring = λ l w h. text_lem (text_of w.stack) h;
  tolstring_empty = λ l w h. empty_lem w.stack h;
}

left : Bool → ℕ
left true = 1
left false = 0

pub bench-Stops : Stops bench 2
unfolding left
bench-Stops = record {
  left = λ h w. left w.running;
  left_limit = λ h w. ground arith;
  left_falls = λ h w e. ground arith;
}
