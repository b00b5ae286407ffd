-- ===== src/LuaRunner/Script.antt =====
-- The script in luaRunner/main.cpp.
use opcuatesttool.Prelude.{List, [], ◌∷◌, ◌++◌}
use opcuatesttool.Std.Text.{Text, codes}

-- Lines, each with its newline.
abbrev pub unlines : List Text → Text
unlines [] = []
unlines (line ∷ lines) = line ++ codes "\n" ++ unlines lines

-- The text of the script.
abbrev pub trial_script : Text
trial_script =
    unlines (
      []
      ∷ codes "                connect()"
      ∷ codes "                --disconnect()"
      ∷ codes "                id1 = NodeId:new(0, 2255)"
      ∷ codes "                print(id1)"
      ∷ codes "                val = read(id1)"
      ∷ codes "                print(val:toString())"
      ∷ codes "                print(resolveUri(\"http://opcfoundation.org/UA/\"))"
      ∷ codes "                --"
      ∷ codes "                inputs = VariantVector()"
      ∷ codes "                inputs:add(Variant:new(\"mk\"))"
      ∷ codes "                outputs = call(NodeId:new(0,85), NodeId:new(1,62541), inputs);"
      ∷ codes "                print(outputs[1]:toString())"
      ∷ codes "                if outputs[1]==Variant:new(\"Hello mk\") then"
      ∷ codes "                    print(\"variant comparision ok\")"
      ∷ codes "                end"
      ∷ []
      ∷ codes "                --browse"
      ∷ codes "                br = browse(NodeId:new(0,85))"
      ∷ codes "                for i,v in ipairs(br) do"
      ∷ codes "                    print(v:Name())"
      ∷ codes "                end"
      ∷ []
      ∷ codes "                function browseRecursive (id)"
      ∷ codes "                    br = browse(id)"
      ∷ codes "                    for i,v in ipairs(br) do"
      ∷ codes "                        print(v:Name())"
      ∷ codes "                        if v:IsVariable() then"
      ∷ codes "                            print(\"isVariable\")"
      ∷ codes "                        end"
      ∷ codes "                        browseRecursive(v:Id())"
      ∷ codes "                    end"
      ∷ codes "                end"
      ∷ []
      ∷ codes "                browseRecursive(NodeId:new(0, 85))"
      ∷ []
      ∷ codes "                disconnect()"
      ∷ codes "                ---exception handling"
      ∷ codes "                function try(f, catch_f)"
      ∷ codes "                    local status, exception = pcall(f)"
      ∷ codes "                    if not status then"
      ∷ codes "                        catch_f(exception)"
      ∷ codes "                    end"
      ∷ codes "                end"
      ∷ codes "                try(function()"
      ∷ codes "                    -- Try block"
      ∷ codes "                    --"
      ∷ codes "                    val = read(NodeId.new(1,1))"
      ∷ codes "                end, function(e)"
      ∷ codes "                    -- Except block. E.g.:"
      ∷ codes "                    -- Use e for conditional catch"
      ∷ codes "                    -- Re-raise with error(e)"
      ∷ codes "                    print(\"error on calling abc\")"
      ∷ codes "                end)"
      ∷ codes "                print(\"after try catch\")"
      ∷ codes "                connect()"
      ∷ codes "                disconnect()"
      ∷ [])
    ++ codes "        "
