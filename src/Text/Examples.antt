-- ===== src/Text/Examples.antt =====
-- Comparisons and searches.
use oftc_blitzed.Base.{◌≡◌, refl}
use oftc_blitzed.Text.{irc_tolower}

-- Brackets and braces are one to irc_tolower, but not to irc_stricmp.
brackets : irc_tolower b'[' ≡ b'{'
unfolding irc_tolower
brackets = refl
