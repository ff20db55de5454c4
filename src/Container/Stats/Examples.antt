-- ===== src/Container/Stats/Examples.antt =====
-- The parsers of linux_backend/linux_container.go at a few texts.
use warden_linux.Base.{◌≡◌}
use warden_linux.Container.Stats.Scanned.{name_of, last_number, parse_memory_stat_lem}
use warden_linux.Container.Stats.{rss, parse_memory_stat}

parse_memory_stat_lem_example :
    parse_memory_stat "cache 4096\nrss 100\nswap none\nrss 200\n" rss
    ≡ last_number (name_of rss) "cache 4096\nrss 100\nswap none\nrss 200\n"
parse_memory_stat_lem_example =
    parse_memory_stat_lem "cache 4096\nrss 100\nswap none\nrss 200\n" rss
