-- ===== src/UserAgent/Defaults.antt =====
-- The tables of pkg/useragent/useragent.go as the package declares them.
use insight_collector.Prelude.{String, List, [], ◌∷◌}
use insight_collector.UserAgent.{NamedPatterns, Tables}

abbrev pub tablet_patterns : List String
tablet_patterns =
    "ipad" ∷ "tablet" ∷ "kindle" ∷ "playbook" ∷ "nexus 7" ∷ "nexus 10" ∷ "gt-p" ∷ "sm-t" ∷ "tab"
    ∷ "transformer" ∷ "xoom" ∷ "xyboard" ∷ []

abbrev pub mobile_patterns : List String
mobile_patterns =
    "iphone" ∷ "ipod" ∷ "android.*mobile" ∷ "blackberry" ∷ "windows phone" ∷ "palm" ∷ "symbian"
    ∷ "opera mini" ∷ "opera mobi" ∷ "fennec" ∷ "minimo" ∷ []

abbrev pub bot_patterns : List String
bot_patterns =
    "bot" ∷ "crawler" ∷ "spider" ∷ "scraper" ∷ "curl" ∷ "wget" ∷ "googlebot" ∷ "bingbot" ∷ "msnbot"
    ∷ "yahoo" ∷ "duckduckbot" ∷ "yandexbot" ∷ "baiduspider" ∷ "ia_archiver" ∷ "archive.org"
    ∷ "gptbot" ∷ "chatgpt-user" ∷ "claudebot" ∷ "anthropic-ai" ∷ "meta-externalagent"
    ∷ "meta-externalfetcher" ∷ "perplexitybot" ∷ "bytespider" ∷ "google-extended" ∷ "mistralai-user"
    ∷ "facebookexternalhit" ∷ "facebot" ∷ "twitterbot" ∷ "linkedinbot" ∷ "pinterestbot"
    ∷ "pinterest" ∷ "whatsapp" ∷ "telegram" ∷ "slackbot" ∷ "discordbot" ∷ "applebot" ∷ "amazonbot"
    ∷ "semrushbot" ∷ "ahrefsbot" ∷ "screaming frog" ∷ "sitebulb" ∷ []

abbrev pub os_patterns : List NamedPatterns
os_patterns =
    record { name = "iOS"; patterns = "iphone" ∷ "ipad" ∷ "ipod" ∷ [] }
    ∷ record { name = "Android"; patterns = "android" ∷ [] }
    ∷ record { name = "HarmonyOS"; patterns = "harmonyos" ∷ [] }
    ∷ record { name = "Windows Phone"; patterns = "windows phone" ∷ [] }
    ∷ record { name = "Windows"; patterns = "windows nt" ∷ "win32" ∷ "win64" ∷ [] }
    ∷ record { name = "macOS"; patterns = "mac os x" ∷ "macintosh" ∷ "darwin" ∷ [] }
    ∷ record { name = "Linux"; patterns = "linux" ∷ "x11" ∷ [] }
    ∷ record { name = "Chrome OS"; patterns = "cros" ∷ [] }
    ∷ record { name = "BlackBerry"; patterns = "blackberry" ∷ "bb10" ∷ [] }
    ∷ record { name = "Tizen"; patterns = "tizen" ∷ [] }
    ∷ record { name = "KaiOS"; patterns = "kaios" ∷ [] }
    ∷ []

abbrev pub browser_patterns : List NamedPatterns
browser_patterns =
    record { name = "Edge"; patterns = "edg/" ∷ "edge/" ∷ [] }
    ∷ record { name = "Chrome"; patterns = "chrome/" ∷ [] }
    ∷ record { name = "Firefox"; patterns = "firefox/" ∷ [] }
    ∷ record { name = "Safari"; patterns = "safari/" ∷ [] }
    ∷ record { name = "Opera"; patterns = "opera/" ∷ "opr/" ∷ [] }
    ∷ record { name = "Brave"; patterns = "brave/" ∷ [] }
    ∷ record { name = "Vivaldi"; patterns = "vivaldi/" ∷ [] }
    ∷ record { name = "Internet Explorer"; patterns = "msie" ∷ "trident/" ∷ [] }
    ∷ record { name = "Samsung Browser"; patterns = "samsungbrowser/" ∷ [] }
    ∷ record { name = "UC Browser"; patterns = "ucbrowser/" ∷ [] }
    ∷ record { name = "DuckDuckGo"; patterns = "duckduckgo/" ∷ "ddg/" ∷ [] }
    ∷ record { name = "Yandex"; patterns = "yabrowser/" ∷ "yandex" ∷ [] }
    ∷ []

abbrev pub tables : Tables
tables = record {
  tablet_patterns = tablet_patterns;
  mobile_patterns = mobile_patterns;
  bot_patterns = bot_patterns;
  os_patterns = os_patterns;
  browser_patterns = browser_patterns;
}
