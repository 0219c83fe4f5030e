-- ===== src/Channel/Lock/Turn.antt =====
-- What the runs through the ten flags do.
use oftc_blitzed.Base.{
  ◌≡◌, refl, ◌∙◌, Bool, false, List, [], ◌∷◌, arith, ◌==◌, if◌then◌else◌, ◌&&◌, ◌||◌,
}
use oftc_blitzed.Channel.Defs.{Flag, invite_only, Flags}
use oftc_blitzed.Channel.Modes.{bit, set_flag}
use oftc_blitzed.Channel.Lock.{turn, order}

abbrev hits : Flag → List Flag → Flags → Bool
hits f [] modes = false
hits f (g ∷ l) modes = bit f == bit g && modes g || hits f l modes

turn-hits :
    (add : Bool) (l : List Flag) (modes mode : Flags) (f : Flag)
    → (turn add l modes mode).0 f ≡ (if hits f l modes then add else mode f)
unfolding turn set_flag
turn-hits add [] modes mode f = refl
turn-hits add (g ∷ l) modes mode f =
    turn-hits add l modes (if modes g then set_flag g add mode else mode) f ∙ ground arith

hits-order : (f : Flag) (modes : Flags) → hits f order modes ≡ modes f
hits-order invite_only modes = ground arith
hits-order _ modes = ground arith

-- The run over all flags sets exactly those of `modes`.
pub turn-order :
    (add : Bool) (modes mode : Flags) (f : Flag)
    → (turn add order modes mode).0 f ≡ (if modes f then add else mode f)
turn-order add modes mode f = turn-hits add order modes mode f ∙ rw (hits-order f modes)

-- Without a flag to set there are no letters.
pub turn-none :
    (add : Bool) (l : List Flag) (modes mode : Flags)
    → ((f : Flag) → modes f ≡ false)
    → (turn add l modes mode).1 ≡ []
unfolding turn set_flag
turn-none add [] modes mode h = refl
turn-none add (f ∷ l) modes mode h = ground (arith, h f, turn-none add l modes mode h)
