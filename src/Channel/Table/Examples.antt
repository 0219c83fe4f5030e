-- ===== src/Channel/Table/Examples.antt =====
-- A table of two channels in two buckets.
use oftc_blitzed.Base.{◌≡◌, refl, [], ◌∷◌, ◌==◌, if◌then◌else◌, codes, some}
use oftc_blitzed.Text.{irc_stricmp, tolower}
use oftc_blitzed.Channel.Defs.{Channel}
use oftc_blitzed.Channel.Samples.{lobby}
use oftc_blitzed.Channel.Table.{Table, hash, find_in, findchan}

abbrev den : Channel
den = record lobby { name = codes "#den"; channel_id = 4 }

abbrev two : Table
two = λ i.
    if i == hash (codes "#lobby")
    then lobby ∷ []
    else if i == hash (codes "#den")
    then den ∷ []
    else []

found : findchan two (codes "#DEN") ≡ some den
unfolding findchan find_in irc_stricmp tolower
found = refl
