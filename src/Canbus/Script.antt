-- ===== src/Canbus/Script.antt =====
-- app/src/domain/canbus_domain/processors/script_processor.{h,cpp}: the Lua function that may
-- replace the data of a frame.
pub mod Stack
use eerie_leap_rt.Common.{
  ℕ, Bool, true, false, Option, none, some, List, [], ◌∷◌, ◌++◌, codes, returns, Eff, pure, throw,
  fault, deref, ◌>>=◌, if◌then◌else◌, ◌==◌,
}
use eerie_leap_rt.Canbus.Platform.{Platform}

-- The C string that starts at the first of these bytes.
unfoldable pub c_string : List ℕ → List ℕ
c_string [] = []
c_string (b ∷ bs) = let rest = c_string bs in if b == 0 then [] else b ∷ rest

module _ (p : Platform) where
  open p use {World, Message, LuaState}

  -- A call that changes the world, and one that also answers.
  abbrev change : (World → World) → Eff World (Unit {0})
  change f w = (returns tt, f w)

  abbrev call {ℓ} : {A : Type ℓ} → (World → A × World) → Eff World A
  call f w = (returns (f w).0, (f w).1)

  -- `std::string(lua_tostring(state, -1))` of the null pointer is undefined.
  abbrev throw_text : Option (List ℕ) → Eff World (List ℕ)
  throw_text none = fault
  throw_text (some bytes) = throw (codes "Error calling Lua function: " ++ c_string bytes)

  -- A call that failed: the pop comes before the error's text is read.
  unfoldable pub failed_call : LuaState → Eff World (List ℕ)
  unfolding c_string
  failed_call state = do
    popped ← change (p.lua_pop state)
    text ← call (p.lua_tolstring state)
    throw_text text

  abbrev string_result : LuaState → Bool → Eff World (List ℕ)
  string_result state false = do
    popped ← change (p.lua_pop state)
    throw (codes "Function didn't return a string (binary data).")
  string_result state true = do
    found ← call (p.lua_tolstring state)
    bytes ← deref found
    popped ← change (p.lua_pop state)
    pure bytes

  -- What follows `lua_pcall`.
  unfoldable pub call_result : LuaState → Bool → Eff World (List ℕ)
  unfolding failed_call
  call_result state false = failed_call state
  call_result state true = λ w. string_result state (p.lua_isstring state w) w

  unfoldable pub call_function : LuaState → Message → List ℕ → Bool → Eff World (List ℕ)
  unfolding call_result
  call_function state message bytes false = do popped ← change (p.lua_pop state); pure []
  call_function state message bytes true = do
    frame_id ← change (p.lua_pushinteger state (p.frame_id message))
    pushed ← change (p.lua_pushlstring state bytes)
    ok ← call (p.lua_pcall state)
    call_result state ok

  abbrev in_state : List ℕ → Message → List ℕ → Option LuaState → Eff World (List ℕ)
  in_state function_name message bytes none = pure []
  in_state function_name message bytes (some state) = do
    found ← change (p.lua_getglobal state function_name)
    λ w. call_function state message bytes (p.lua_isfunction state w) w

  abbrev in_script : List ℕ → Message → List ℕ → Option p.Script → Eff World (List ℕ)
  in_script function_name message bytes none = pure []
  in_script function_name message bytes (some script) =
      λ w. in_state function_name message bytes (p.get_state script w) w

  -- `ScriptProcessor::Process`, with the `function_name_` of its constructor.
  unfoldable pub process : List ℕ → Message → List ℕ → Eff World (List ℕ)
  unfolding call_function
  process function_name message bytes = in_script function_name message bytes (p.lua_script message)
