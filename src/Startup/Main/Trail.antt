-- ===== src/Startup/Main/Trail.antt =====
-- app/src/main.cpp, main: the calls that a part of it makes, as a prefix of those that it would make
-- if it ran to its end.
use eerie_leap_rt.Common.{
  ◌≡◌, refl, ap, ◌∙◌, sym, Bool, List, [], ◌∷◌, ◌++◌, append_assoc, Outcome, returns, throws,
  faults, Eff, and_then, ◌>>=◌,
}
use eerie_leap_rt.DeviceTree.Fs.{Host}
use eerie_leap_rt.DeviceTree.Devices.{Board}
use eerie_leap_rt.Http.Collaborators.{Collaborators}
use eerie_leap_rt.Canbus.Platform.{Platform}
use eerie_leap_rt.Startup.Calls.{Call}
use eerie_leap_rt.Startup.Main.{Surroundings, Boot, perform_all}

-- A trace after some more calls.
abbrev pub push : List Call → List Call → List Call
push [] calls = calls
push (k ∷ ks) calls = push ks (k ∷ calls)

push-append : (ks ls calls : List Call) → push (ks ++ ls) calls ≡ push ls (push ks calls)
push-append [] ls calls = refl
push-append (k ∷ ks) ls calls = push-append ks ls (k ∷ calls)

module _ (b : Board) (h : Host) (c : Collaborators) (p : Platform) where
  -- The calls that were made are the first ones of these.
  pub record Trail {A : Type 0} (ks : List Call) (s : Boot b h c p) (r : Outcome A × Boot b h c p)
      : Type 0 where
    pub made : List Call
    pub left : List Call
    pub split : ks ≡ made ++ left
    pub calls_lem : r.1.calls ≡ push made s.calls

  -- They were all made where the part returned.
  pub record Full {A : Type 0} (ks : List Call) (s : Boot b h c p) (r : Outcome A × Boot b h c p)
      : Type 0 where
    pub trail : Trail ks s r
    pub whole : (a : A) → r.0 ≡ returns a → r.1.calls ≡ push ks s.calls

  and_then-stop :
      {A B : Type 0} (ks ls : List Call) (s t : Boot b h c p) (o : Outcome A) (o' : Outcome B)
      → Trail ks s (o, t)
      → Trail (ks ++ ls) s (o', t)
  and_then-stop ks ls s t o o' r = record {
    made = r.made;
    left = r.left ++ ls;
    split = ap (λ l. l ++ ls) r.split ∙ append_assoc r.made r.left ls;
    calls_lem = r.calls_lem;
  }

  and_then-Trail :
      {A B : Type 0} (ks ls : List Call) (s : Boot b h c p) (r : Outcome A × Boot b h c p)
      (f : A → Eff (Boot b h c p) B)
      → Full ks s r
      → ((a : A) (t : Boot b h c p) → Trail ls t (f a t))
      → Trail (ks ++ ls) s (and_then r f)
  and_then-Trail ks ls s (returns a, t) f full k =
      let rest = k a t in
      record {
        made = ks ++ rest.made;
        left = rest.left;
        split = ap (λ l. ks ++ l) rest.split ∙ sym (append_assoc ks rest.made rest.left);
        calls_lem =
            rest.calls_lem
            ∙ ap (push rest.made) (full.whole a refl)
            ∙ sym (push-append ks rest.made s.calls);
      }
  and_then-Trail ks ls s (throws e, t) f full k =
      and_then-stop ks ls s t (throws e) (throws e) full.trail
  and_then-Trail ks ls s (faults, t) f full k = and_then-stop ks ls s t faults faults full.trail

  pub none-Trail :
      {A : Type 0} (ks : List Call) (s : Boot b h c p) (o : Outcome A) → Trail ks s (o, s)
  none-Trail ks s o = record { made = []; left = ks; split = refl; calls_lem = refl }

  pub done-Full : {A : Type 0} (s : Boot b h c p) (o : Outcome A) → Full [] s (o, s)
  done-Full s o = record { trail = none-Trail [] s o; whole = λ a q. refl }

  -- A part of main that makes these calls, from wherever it starts.
  abbrev pub Makes : {A : Type 0} → List Call → Eff (Boot b h c p) A → Type 0
  Makes ks part = (s : Boot b h c p) → Full ks s (part s)

  pub bind-Trail :
      {A B : Type 0} {ks ls : List Call} {part : Eff (Boot b h c p) A}
      {next : A → Eff (Boot b h c p) B}
      → Makes ks part
      → ((a : A) (t : Boot b h c p) → Trail ls t (next a t))
      → (s : Boot b h c p) → Trail (ks ++ ls) s ((part >>= next) s)
  bind-Trail {ks = ks} {ls = ls} {part = part} {next = next} makes rest s =
      and_then-Trail ks ls s (part s) next (makes s) rest

  -- A part that makes one call, and returns or not.
  pub one-Makes :
      {A : Type 0} (k : Call) (part : Eff (Boot b h c p) A)
      → ((s : Boot b h c p) → (part s).1.calls ≡ k ∷ s.calls)
      → Makes (k ∷ []) part
  one-Makes k part e s = record {
    trail = record { made = k ∷ []; left = []; split = refl; calls_lem = e s };
    whole = λ a q. e s;
  }

  module _ (m : Surroundings b h c p) where
    perform-Full :
        (k : Call) (ks : List Call) (s : Boot b h c p) (o : Outcome Bool)
        → Full ks
            (record s { calls = k ∷ s.calls })
            (perform_all b h c p m ks (record s { calls = k ∷ s.calls }))
        → Full
            (k ∷ ks)
            s
            (and_then (o, record s { calls = k ∷ s.calls }) (λ result. perform_all b h c p m ks))
    perform-Full k ks s (returns a) f = record {
      trail = record {
        made = k ∷ f.trail.made;
        left = f.trail.left;
        split = ap (λ l. k ∷ l) f.trail.split;
        calls_lem = f.trail.calls_lem;
      };
      whole = f.whole;
    }
    perform-Full k ks s (throws e) f = record {
      trail = record { made = k ∷ []; left = ks; split = refl; calls_lem = refl };
      whole = λ a q. cc;
    }
    perform-Full k ks s faults f = record {
      trail = record { made = k ∷ []; left = ks; split = refl; calls_lem = refl };
      whole = λ a q. cc;
    }

    pub perform_all-Full :
        (ks : List Call) (s : Boot b h c p) → Full ks s (perform_all b h c p m ks s)
    unfolding perform_all
    perform_all-Full [] s = done-Full s (returns tt)
    perform_all-Full (k ∷ ks) s =
        perform-Full k ks s (m.respond s.calls k)
          (perform_all-Full ks (record s { calls = k ∷ s.calls }))
