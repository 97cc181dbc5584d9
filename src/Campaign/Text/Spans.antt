-- ===== src/Campaign/Text/Spans.antt =====
-- What the scanning of a text finds in front of a rest that stops it.
use Prim.Native.Char.{code}
use warden_drydock.Prelude.{ℕ, String, ◌≡◌, refl, Bool, true, false, &&-true}
use warden_drydock.Campaign.Text.{span, all_chars, head_is, ◌<>◌, lstrip, is_space}

pub span-stop : (p : ℕ → Bool) (t : String) → head_is p t ≡ false → span p t ≡ (String.[], t)
unfolding span head_is
span-stop p String.[] h = refl
span-stop p (String.◌∷◌ c t) h = rw h

pub span-append :
    (p : ℕ → Bool) (w t : String)
    → all_chars p w ≡ true
    → head_is p t ≡ false
    → span p (w <> t) ≡ (w, t)
unfolding span all_chars
span-append p String.[] t h stop = span-stop p t stop
span-append p (String.◌∷◌ c w) t h stop =
    let (now, rest) = &&-true (p (code c)) (all_chars p w) h in
    rw (now, span-append p w t rest stop)

pub lstrip-stop : (s : String) → head_is is_space s ≡ false → lstrip s ≡ s
unfolding lstrip head_is
lstrip-stop String.[] h = refl
lstrip-stop (String.◌∷◌ c s) h = rw h
