-- ===== src/Canbus/Script/Stack.antt =====
-- app/src/domain/canbus_domain/processors/script_processor.cpp: the depth of the Lua stack.
use eerie_leap_rt.Common.{
  ℕ, suc, ◌+◌, ◌≡◌, refl, ◌∙◌, Bool, true, false, none, some, List, arith, faults, Bool-cases,
  Option-cases, inl, inr,
}
use eerie_leap_rt.Canbus.Platform.{Platform}
use eerie_leap_rt.Canbus.Script.{process, call_function, call_result, failed_call}

-- What the Lua manual says of the calls: how many values each pops and pushes.
pub record LuaStack (p : Platform) : Type 0 where
  pub depth : p.LuaState → p.World → ℕ
  pub getglobal_depth :
      (l : p.LuaState) (name : List ℕ) (w : p.World)
      → depth l (p.lua_getglobal l name w) ≡ suc (depth l w)
  pub pushinteger_depth :
      (l : p.LuaState) (n : ℕ) (w : p.World) → depth l (p.lua_pushinteger l n w) ≡ suc (depth l w)
  pub pushlstring_depth :
      (l : p.LuaState) (b : List ℕ) (w : p.World)
      → depth l (p.lua_pushlstring l b w) ≡ suc (depth l w)
  pub pop_depth :
      (l : p.LuaState) (w : p.World) (n : ℕ) → depth l w ≡ suc n → depth l (p.lua_pop l w) ≡ n
  -- The function and its two arguments give way to one result, or to the error.
  pub pcall_depth :
      (l : p.LuaState) (w : p.World) (n : ℕ)
      → depth l w ≡ n + 3
      → depth l (p.lua_pcall l w).1 ≡ suc n
  pub tolstring_depth : (l : p.LuaState) (w : p.World) → depth l (p.lua_tolstring l w).1 ≡ depth l w
  -- A string, or a number, has a text.
  pub tolstring_isstring :
      (l : p.LuaState) (w : p.World)
      → p.lua_isstring l w ≡ true
      → (text : List ℕ) × ((p.lua_tolstring l w).0 ≡ some text)
  -- There is no text in an empty stack.
  pub tolstring_empty :
      (l : p.LuaState) (w : p.World) → depth l w ≡ 0 → (p.lua_tolstring l w).0 ≡ none

module _ (p : Platform) (lua : LuaStack p) where
  open p use {World, Message, LuaState}

  failed_call_depth :
      (l : LuaState) (w : World) (n : ℕ)
      → lua.depth l w ≡ suc n
      → lua.depth l (failed_call p l w).1 ≡ n
  unfolding failed_call
  failed_call_depth l w n h =
      let popped = lua.pop_depth l w n h in
      let read = lua.tolstring_depth l (p.lua_pop l w) in
      elim (Option-cases (p.lua_tolstring l (p.lua_pop l w)).0) [
        | inl e ↦ ground arith
        | inr (text, e) ↦ ground arith
      ]

  call_result_depth :
      (l : LuaState) (ok : Bool) (w : World) (n : ℕ)
      → lua.depth l w ≡ suc n
      → lua.depth l (call_result p l ok w).1 ≡ n
  unfolding call_result
  call_result_depth l false w n h = failed_call_depth l w n h
  call_result_depth l true w n h = elim (Bool-cases (p.lua_isstring l w)) [
    | inl e ↦
        let (text, e') = lua.tolstring_isstring l w e in
        rw (e, call_result)
          (rw e' (lua.pop_depth l (p.lua_tolstring l w).1 n (lua.tolstring_depth l w ∙ h)))
    | inr e ↦ rw (e, call_result) (lua.pop_depth l w n h)
  ]

  call_function_depth :
      (l : LuaState) (m : Message) (bytes : List ℕ) (is_function : Bool) (w : World) (n : ℕ)
      → lua.depth l w ≡ suc n
      → lua.depth l (call_function p l m bytes is_function w).1 ≡ n
  unfolding call_function
  call_function_depth l m bytes false w n h = lua.pop_depth l w n h
  call_function_depth l m bytes true w n h =
      let w1 = p.lua_pushinteger l (p.frame_id m) w in
      let w2 = p.lua_pushlstring l bytes w1 in
      call_result_depth l (p.lua_pcall l w2).0 (p.lua_pcall l w2).1 n (
        lua.pcall_depth l w2 n (
          omega
            (arith, h, lua.pushinteger_depth l (p.frame_id m) w, lua.pushlstring_depth l bytes w1)))

  -- If the calls of Lua pop and push as its manual says, `Process` leaves the stack of a script that
  -- has a Lua state as deep as it found it, whether it returns or throws.
  pub process_depth :
      (name : List ℕ) (m : Message) (bytes : List ℕ) (w : World) (script : p.Script) (l : LuaState)
      → p.lua_script m ≡ some script
      → p.get_state script w ≡ some l
      → lua.depth l (process p name m bytes w).1 ≡ lua.depth l w
  unfolding process
  process_depth name m bytes w script l hs hl =
      let w1 = p.lua_getglobal l name w in
      rw (hs, process)
        (rw hl (
          call_function_depth l m bytes (p.lua_isfunction l w1) w1 (lua.depth l w)
            (lua.getglobal_depth l name w)))

  -- A Lua function that fails, in a state whose stack was empty, does not reach the exception: the
  -- error is popped before its text is read, and a string is made of the null pointer.
  pub process_failed :
      (name : List ℕ) (m : Message) (bytes : List ℕ) (w : World) (script : p.Script) (l : LuaState)
      → p.lua_script m ≡ some script
      → p.get_state script w ≡ some l
      → lua.depth l w ≡ 0
      → p.lua_isfunction l (p.lua_getglobal l name w) ≡ true
      → (p.lua_pcall l (
          p.lua_pushlstring l bytes
            (p.lua_pushinteger l (p.frame_id m) (p.lua_getglobal l name w)))).0
        ≡ false
      → (process p name m bytes w).0 ≡ faults
  unfolding process call_function call_result failed_call
  process_failed name m bytes w script l hs hl empty is_function fails =
      let w1 = p.lua_getglobal l name w in
      let w2 = p.lua_pushinteger l (p.frame_id m) w1 in
      let w3 = p.lua_pushlstring l bytes w2 in
      let w4 = (p.lua_pcall l w3).1 in
      let left = lua.pcall_depth l w3 0 (
        omega (
          arith,
          empty,
          lua.getglobal_depth l name w,
          lua.pushinteger_depth l (p.frame_id m) w1,
          lua.pushlstring_depth l bytes w2,
        )) in
      let null = lua.tolstring_empty l (p.lua_pop l w4) (lua.pop_depth l w4 0 left) in
      rw (hs, process)
        (rw hl
          (rw (is_function, call_function) (rw (fails, call_result) (rw (null, failed_call) refl))))
